-- ===== src/Int/Apic/Search.antt =====
-- What findVaildIOAPIC and writeRedirectionTable (kernel/int/apic.c) do when no I/O APIC serves the
-- interrupt.
use seaweed.Base.{ℕ, zero, suc, ◌+◌, ◌-◌, ◌*◌, ◌/◌, ◌^◌, ◌<◌, ◌≡◌, refl, arith, ◌==◌, false, leb}
use seaweed.Base.{inl, inr, ◌⊎◌, ◌&&◌, List, [], ◌∷◌, ◌++◌}
use seaweed.Base.{u32, u64, ◌>>>◌}
use seaweed.Mm.Layout.{high_vma}
use seaweed.Acpi.Madt.{MadtInfo}
use seaweed.Int.Apic.{Store, error_code, ioapic_write, redirection_register}
use seaweed.Int.Apic.Device.{Device, run_stores}
use seaweed.Int.Apic.Table.{get_max_gsis, find_from, find_vaild_ioapic, write_redirection_table}

-- Whatever the device's state, the i-th I/O APIC does not serve the interrupt: it lies below the first
-- of its interrupts or above the last.
abbrev pub IsUnserved {ℓ} : {S : Type ℓ} → Device S → MadtInfo → ℕ → ℕ → Type ℓ
IsUnserved {S = S} dev info gsi i =
    let e = info.madt_entry1 i in
    (s : S)
    → (gsi < e.gsi_base) ⊎ (u32 ((get_max_gsis dev info e.ioapic_addr s).0 + e.gsi_base) < gsi)

-- The stores that select a register of the I/O APIC at `base` and write a word of it.
abbrev pub window : ℕ → ℕ → ℕ → List Store
window base reg value =
    record { address = u64 (base + high_vma); value = reg }
    ∷ record { address = u64 (base + 16 + high_vma); value = value }
    ∷ []

module _ {ℓ} {S : Type ℓ} (dev : Device S) (info : MadtInfo) (gsi : ℕ) where
  find_from-unserved :
      (left i : ℕ) (s : S)
      → i + left ≡ info.madt_entry1_count
      → ((j : ℕ) → j < info.madt_entry1_count → IsUnserved dev info gsi j)
      → (s' : S) × (find_from dev info gsi left i s ≡ (info.madt_entry1_count, s'))
  unfolding find_from
  find_from-unserved zero i s e unserved =
      let at : i ≡ info.madt_entry1_count = omega arith in (s, rw at refl)
  find_from-unserved (suc left) i s e unserved =
      let apic = info.madt_entry1 i in
      let top = u32 ((get_max_gsis dev info apic.ioapic_addr s).0 + apic.gsi_base) in
      let out : (leb apic.gsi_base gsi && leb gsi top) ≡ false = elim (unserved i (omega arith) s) [
        | inl lt ↦ ground arith
        | inr lt ↦ ground arith
      ] in
      let inside : (i == info.madt_entry1_count) ≡ false = ground arith in
      let (s', is) =
        find_from-unserved left (i + 1) (get_max_gsis dev info apic.ioapic_addr s).1 (omega arith)
          unserved in
      (s', rw (out, inside) is)

  -- For an interrupt that none of fewer than 256 I/O APICs serves, whatever their registers read:
  -- findVaildIOAPIC never returns the error code, but the number of entries, and so
  -- writeRedirectionTable reports no bad interrupt: it returns 1, after the two words of the entry have
  -- been stored, by a select and a write each, at the base that stands behind the last entry of the
  -- table.
  pub write_redirection_table_unserved :
      (word : ℕ) (s : S)
      → info.madt_entry1_count < 256
      → ((j : ℕ) → j < info.madt_entry1_count → IsUnserved dev info gsi j)
      → let e = info.madt_entry1 info.madt_entry1_count in
        let reg = u32 ((gsi + 2 ^ 32 - e.gsi_base) * 2 + 16) in
        (s' : S) × (find_vaild_ioapic dev info gsi s ≡ (info.madt_entry1_count, s'))
        × (write_redirection_table dev info gsi word s ≡ (
          1,
          run_stores dev
              (window e.ioapic_addr reg (u32 word)
                ++ window e.ioapic_addr (u32 (reg + 1)) (u32 (word / 2 ^ 32)))
              s',
        ))
  unfolding find_vaild_ioapic write_redirection_table redirection_register ioapic_write
  write_redirection_table_unserved word s few unserved =
      let (s', is) = find_from-unserved info.madt_entry1_count 0 s (omega arith) unserved in
      let apart : (info.madt_entry1_count == error_code) ≡ false = ground arith in
      let r = u32 ((gsi + 2 ^ 32 - (info.madt_entry1 info.madt_entry1_count).gsi_base) * 2 + 16) in
      let reg : u32 r ≡ r = omega arith in
      let next : u32 (u32 (r + 1)) ≡ u32 (r + 1) = omega arith in
      let word_low : u32 (u32 word) ≡ u32 word = omega arith in
      let word_high : u32 (u32 (word >>> 32)) ≡ u32 (word / 2 ^ 32) = omega arith in
      (s', is, rw (is, apart, reg, next, word_low, word_high) refl)
