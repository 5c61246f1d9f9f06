-- ===== src/Int/Apic/Routed.antt =====
-- What the loop of initAPIC (kernel/int/apic.c) leaves in the redirection table of an I/O APIC.
use seaweed.Base.{ℕ, zero, suc, ◌+◌, ◌-◌, ◌*◌, ◌^◌, ◌<◌, ◌≤◌, ◌≡◌, ◌≢◌, refl, arith, ◌==◌}
use seaweed.Base.{Bool-cases, inl, inr, sym, ap, ◌∙◌, List, ◌++◌}
use seaweed.Base.{u8, u32, u64, ◌<<<◌, ◌>>>◌, bit_and, not32, update}
use seaweed.Mm.Layout.{high_vma}
use seaweed.Acpi.Madt.{MadtInfo}
use seaweed.Int.Apic.{Store, ioapic_write, redirection_register}
use seaweed.Int.Apic.Device.{Device, run_stores, ioapic_read, Chip, ioapic_chip}
use seaweed.Int.Apic.Table.{
  get_max_gsis, find_from, find_vaild_ioapic, write_redirection_table, route,
}

-- The one I/O APIC of the machine, for the interrupts from 0 on.
pub record IsOnly (info : MadtInfo) (base : ℕ) : Type 0 where
  pub count : info.madt_entry1_count ≡ 1
  pub address : (info.madt_entry1 0).ioapic_addr ≡ base
  pub from_zero : (info.madt_entry1 0).gsi_base ≡ 0

-- The highest interrupt, from what stands where ioapicRead reads.
abbrev pub highest : ℕ → (ℕ → ℕ) → ℕ
highest base other = bit_and (u32 (other (u64 (base + 18 + high_vma))) >>> 16) (not32 (1 <<< 7))

module _ (base : ℕ) (other : ℕ → ℕ) (low : base < 2 ^ 32) where
  abbrev dev : Device Chip
  dev = ioapic_chip base other

  -- The register that was selected last is overwritten.
  abbrev spoiled : Chip → Chip
  spoiled c = record c { registers = update c.registers c.selected 1 }

  select :
      (v : ℕ) (c : Chip)
      → dev.write (record { address = u64 (base + high_vma); value = v }) c
        ≡ record c { selected = u8 v }
  unfolding ioapic_chip
  select v c = ground arith

  fill :
      (v : ℕ) (c : Chip)
      → dev.write (record { address = u64 (base + 16 + high_vma); value = v }) c
        ≡ record c { registers = update c.registers c.selected v }
  unfolding ioapic_chip
  fill v c = ground arith

  read_other :
      (c : Chip) → dev.read (u64 (base + 18 + high_vma)) c ≡ other (u64 (base + 18 + high_vma))
  unfolding ioapic_chip
  read_other c = ground arith

  ioapic_read-chip :
      (c : Chip) → ioapic_read dev base 1 c ≡ (u32 (other (u64 (base + 18 + high_vma))), spoiled c)
  unfolding ioapic_read
  ioapic_read-chip c = rw (fill, read_other) refl

  abbrev written : Chip → ℕ → ℕ → Chip
  written c reg word = record {
    selected = reg + 1;
    registers = update (update (spoiled c).registers reg (u32 word)) (reg + 1) (u32 (word >>> 32));
  }

  store_once :
      (r v : ℕ) (c : Chip)
      → run_stores dev (ioapic_write base r v) c
        ≡ record { selected = u8 (u32 r); registers = update c.registers (u8 (u32 r)) (u32 v) }
  unfolding ioapic_write ioapic_chip
  store_once r v c = ground arith

  store_then :
      (r v : ℕ) (xs : List Store) (c : Chip)
      → run_stores dev (ioapic_write base r v ++ xs) c
        ≡ run_stores dev xs (run_stores dev (ioapic_write base r v) c)
  unfolding ioapic_write
  store_then r v xs c = refl

  run_stores-chip :
      (c : Chip) (reg word : ℕ)
      → reg < 255
      → run_stores dev
          (ioapic_write base reg (u32 word)
            ++ ioapic_write base (u32 (reg + 1)) (u32 (word >>> 32)))
          (spoiled c)
        ≡ written c reg word
  run_stores-chip c reg word small =
      let first : u8 (u32 reg) ≡ reg = omega arith in
      let second : u8 (u32 (u32 (reg + 1))) ≡ reg + 1 = omega arith in
      let word_low : u32 (u32 word) ≡ u32 word = omega arith in
      let word_high : u32 (u32 (word >>> 32)) ≡ u32 (word >>> 32) = omega arith in
      rw (store_then, store_once, store_once, first, second, word_low, word_high) refl

  module _ (info : MadtInfo) (only : IsOnly info base) (byte : highest base other < 2 ^ 32) where
    find_vaild_ioapic-chip :
        (gsi : ℕ) (c : Chip)
        → gsi ≤ highest base other
        → find_vaild_ioapic dev info gsi c ≡ (0, spoiled c)
    unfolding find_vaild_ioapic find_from get_max_gsis
    find_vaild_ioapic-chip gsi c served =
        rw (only.count, only.address, only.from_zero, ioapic_read-chip) (ground arith)

    write_redirection_table-chip :
        (gsi word : ℕ) (c : Chip)
        → gsi ≤ highest base other
        → gsi < 100
        → write_redirection_table dev info gsi word c ≡ (1, written c (gsi * 2 + 16) word)
    unfolding write_redirection_table redirection_register
    write_redirection_table-chip gsi word c served few =
        let reg : u32 ((gsi + 2 ^ 32 - 0) * 2 + 16) ≡ gsi * 2 + 16 = omega arith in
        rw (find_vaild_ioapic-chip gsi c served, only.address, only.from_zero, reg)
          (ap (λ d. (1, d)) (run_stores-chip c (gsi * 2 + 16) word (omega arith)))

    record IsRouted (i left : ℕ) (c after : Chip) : Type 0 where
      pub lows : (k : ℕ) → i ≤ k → k < i + left → after.registers (k * 2 + 16) ≡ k + 32
      pub highs : (k : ℕ) → i ≤ k → k + 1 < i + left → after.registers (k * 2 + 17) ≡ 1
      pub last : (k : ℕ) → k + 1 ≡ i + left → 0 < left → after.registers (k * 2 + 17) ≡ 0
      pub kept : (r : ℕ) → r < i * 2 + 16 → r ≢ c.selected → after.registers r ≡ c.registers r
      pub spoilt : 0 < left → c.selected < i * 2 + 16 → after.registers c.selected ≡ 1

    IsRouted-suc :
        (i left : ℕ) (c after : Chip)
        → i < 100
        → IsRouted (i + 1) left (written c (i * 2 + 16) (i + 32)) after
        → (left ≡ 0 → after ≡ written c (i * 2 + 16) (i + 32))
        → IsRouted i (suc left) c after
    IsRouted-suc i left c after few rest done = record {
      lows = λ k lo hi. elim (Bool-cases (i == k)) [
        | inl at ↦
            let same : k ≡ i = ground arith in
            rw same (rest.kept (i * 2 + 16) (omega arith) (omega arith) ∙ ground arith)
        | inr off ↦ rest.lows k (ground arith) (omega arith)
      ];
      highs = λ k lo hi. elim (Bool-cases (i == k)) [
        | inl at ↦
            let same : k ≡ i = ground arith in
            let next : i * 2 + 16 + 1 ≡ i * 2 + 17 = omega arith in
            rw (same, sym next) (rest.spoilt (omega arith) (omega arith))
        | inr off ↦ rest.highs k (ground arith) (omega arith)
      ];
      last = λ k end _. elim (Bool-cases (left == 0)) [
        | inl none_left ↦
            let same : k ≡ i = ground arith in rw (same, done (ground arith)) (ground arith)
        | inr more ↦ rest.last k (omega arith) (ground arith)
      ];
      kept = λ r lt ne. rest.kept r (omega arith) (omega arith) ∙ ground arith;
      spoilt = λ _ lt. rest.kept c.selected (omega arith) (omega arith) ∙ ground arith;
    }

    route-IsRouted :
        (left i : ℕ) (c : Chip)
        → i + left ≤ 100
        → i + left ≤ highest base other + 1
        → IsRouted i left c (route dev info left i c)
    unfolding route
    route-IsRouted zero i c few served = record {
      lows = λ k lo hi. absurd (omega arith);
      highs = λ k lo hi. absurd (omega arith);
      last = λ k end pos. absurd (omega arith);
      kept = λ r lt ne. refl;
      spoilt = λ pos lt. absurd (omega arith);
    }
    route-IsRouted (suc left) i c few served =
        let is = write_redirection_table-chip i (i + 32) c (omega arith) (omega arith) in
        let w = written c (i * 2 + 16) (i + 32) in
        let rest = route-IsRouted left (i + 1) w (omega arith) (omega arith) in
        rw is (
          IsRouted-suc i left c (route dev info left (i + 1) w) (omega arith) rest
            (λ ended. rw ended refl))

-- The loop of initAPIC over the sixteen interrupts of the old controllers, on the one I/O APIC of the
-- manual, below 4 GiB, for the interrupts from 0 on, with a highest interrupt, from what stands where
-- ioapicRead reads, of 15 or more: each interrupt gets its vector, 32 and its number, in the low word of
-- its entry; but in the high word of each entry but the last, which was stored as 0, stands the 1 that
-- the search before the next store left there.
pub route_overwrites :
    (base : ℕ) (other : ℕ → ℕ) (info : MadtInfo) (c : Chip) (k : ℕ)
    → base < 2 ^ 32
    → IsOnly info base
    → highest base other < 2 ^ 32
    → 15 ≤ highest base other
    → k < 15
    → let after = route (ioapic_chip base other) info 16 0 c in
      (after.registers (k * 2 + 16) ≡ k + 32)
      × (after.registers (k * 2 + 17) ≡ 1)
      × (after.registers 46 ≡ 47)
      × (after.registers 47 ≡ 0)
route_overwrites base other info c k low only byte served lt =
    let routed = route-IsRouted base other low info only byte 16 0 c (omega arith) (omega arith) in
    (
      routed.lows k (omega arith) (omega arith),
      routed.highs k (omega arith) (omega arith),
      routed.lows 15 (omega arith) (omega arith),
      routed.last 15 refl (omega arith),
    )
