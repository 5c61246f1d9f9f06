-- ===== src/Int/Apic/Table.antt =====
-- kernel/int/apic.c on a device, readings and their stores included: the search for an I/O APIC, its
-- redirection table, and initAPIC.
use seaweed.Base.{ℕ, zero, suc, ◌+◌, ◌==◌, if◌then◌else◌, ltb, leb}
use seaweed.Base.{◌&&◌, Option, none, some, ◌>>=◌, List, [], ◌∷◌, ◌++◌}
use seaweed.Base.{u32, ◌<<<◌, ◌>>>◌, bit_and, bit_or, not32}
use seaweed.Acpi.Madt.{MadtInfo}
use seaweed.Int.Apic.{error_code, ioapic_write, lapic_read, lapic_write, redirection_register}
use seaweed.Int.Apic.Device.{Device, run_stores, ioapic_read}

-- A byte that `outb` sends to a port.
pub record PortByte : Type 0 where
  pub port : ℕ
  pub value : ℕ

module _ {ℓ} {S : Type ℓ} (dev : Device S) (info : MadtInfo) where
  -- `getMaxGSIs`
  unfoldable pub get_max_gsis : ℕ → S → ℕ × S
  get_max_gsis base s =
      let (value, s') = ioapic_read dev base 1 s in (bit_and (value >>> 16) (not32 (1 <<< 7)), s')

  -- The loop of `findVaildIOAPIC`, with the rounds that are left. Its return of the error code stands
  -- under a test that no round passes.
  unfoldable pub find_from : ℕ → ℕ → ℕ → S → ℕ × S
  find_from gsi zero i s = (i, s)
  find_from gsi (suc left) i s =
      let e = info.madt_entry1 i in
      let (gsis, s') = get_max_gsis e.ioapic_addr s in
      let rest = find_from gsi left (i + 1) s' in
      if leb e.gsi_base gsi && leb gsi (u32 (gsis + e.gsi_base))
      then (i, s')
      else if i == info.madt_entry1_count
      then (error_code, s')
      else rest

  unfoldable pub find_vaild_ioapic : ℕ → S → ℕ × S
  find_vaild_ioapic gsi = find_from gsi info.madt_entry1_count 0

  -- `writeRedirectionTable`
  unfoldable pub write_redirection_table : ℕ → ℕ → S → ℕ × S
  write_redirection_table gsi word s =
      let (index, s') = find_vaild_ioapic gsi s in
      let e = info.madt_entry1 index in
      let reg = redirection_register e gsi in
      if index == error_code then (0, s') else (
        1,
        run_stores dev
            (ioapic_write e.ioapic_addr reg (u32 word)
              ++ ioapic_write e.ioapic_addr (u32 (reg + 1)) (u32 (word >>> 32)))
            s',
      )

  -- `readRedirectionTable`
  unfoldable pub read_redirection_table : ℕ → S → ℕ × S
  read_redirection_table gsi s =
      let (index, s1) = find_vaild_ioapic gsi s in
      let e = info.madt_entry1 index in
      let reg = redirection_register e gsi in
      let (low, s2) = ioapic_read dev e.ioapic_addr reg s1 in
      let (high, s3) = ioapic_read dev e.ioapic_addr (u32 (reg + 1)) s2 in
      if index == error_code then (69420, s1) else (bit_or low (high <<< 32), s3)

  -- `maskGSI`
  unfoldable pub mask_gsi : ℕ → S → S
  mask_gsi gsi s =
      let (table, s') = read_redirection_table gsi s in
      let (_, masked) = write_redirection_table gsi (bit_or table (1 <<< 16)) s' in
      if table == error_code then s' else masked

  -- The inner loop of `initAPIC` from the interrupt `j` on: the bound is read before each round. `none`
  -- when the fuel ends first.
  unfoldable pub mask_from : ℕ → ℕ → ℕ → S → Option S
  mask_from zero base j s = none
  mask_from (suc fuel) base j s =
      let (gsis, s') = get_max_gsis base s in
      let rest = mask_from fuel base (j + 1) (mask_gsi (u32 j) s') in
      if ltb j gsis then rest else some s'

  unfoldable pub mask_all : ℕ → ℕ → ℕ → S → Option S
  mask_all fuel zero i s = some s
  mask_all fuel (suc left) i s = do
    s' ← mask_from fuel (info.madt_entry1 i).ioapic_addr (info.madt_entry1 i).gsi_base s
    mask_all fuel left (i + 1) s'

  -- The loop over the sixteen interrupts of the old controllers.
  unfoldable pub route : ℕ → ℕ → S → S
  route zero i s = s
  route (suc left) i s = let (_, s') = write_redirection_table i (i + 32) s in route left (i + 1) s'

  -- `initAPIC`: the bytes that remap and then disable the old controllers, and the device afterwards.
  unfoldable pub init_apic : ℕ → S → List PortByte × Option S
  init_apic fuel s = (
    record { port = 0x20; value = 0x11 }
        ∷ record { port = 0xa0; value = 0x11 }
        ∷ record { port = 0x21; value = 0x20 }
        ∷ record { port = 0xa1; value = 0x28 }
        ∷ record { port = 0x21; value = 0x4 }
        ∷ record { port = 0xa1; value = 0x2 }
        ∷ record { port = 0x21; value = 0x1 }
        ∷ record { port = 0xa1; value = 0x1 }
        ∷ record { port = 0x21; value = 0x0 }
        ∷ record { port = 0xa1; value = 0x0 }
        ∷ record { port = 0xa1; value = 0xff }
        ∷ record { port = 0x21; value = 0xff }
        ∷ [],
    do
      s1 ← mask_all fuel info.madt_entry1_count 0 s
      let s2 = route 16 0 s1
      let sint = lapic_read (λ a. dev.read a s2) info.lapic_addr 0xf0
      some (dev.write (lapic_write info.lapic_addr 0xf0 (bit_or sint 0x1ff)) s2),
  )
