-- ===== src/Acpi/Madt.antt =====
-- kernel/acpi/madt.c: the table of the interrupt controllers and its parser. A pointer into the
-- table is a function from the offset to the byte.
pub mod Laws
use seaweed.Base.{
  ℕ, zero, suc, ◌+◌, ◌-◌, ◌*◌, ◌/◌, ◌%◌, ◌^◌, ◌<◌, ◌≤◌, ◌≡◌, ◌≢◌, refl, arith, ◌==◌, if◌then◌else◌,
  Bool, true, false, ltb, leb, ==_iff, ltb→lt, leb→le, lt→ltb,
}
use seaweed.Base.{
  Bool-cases, Option-cases, inl, inr, ◌⊎◌, ◌↔◌, not, ◌&&◌, ◌||◌, Option, none, some, sym, ap, ◌∙◌,
  List, [], ◌∷◌, ◌++◌, map,
}
use seaweed.Base.{
  u8, u16, u32, u64, ◌<<<◌, ◌>>>◌, bit_and, bit_or, bit_xor, not32, length, get_elem?, get_or, take,
  drop, replicate, update,
}

-- `madtEntry0_t`: a core and its local APIC.
pub record MadtEntry0 : Type 0 where
  pub acpi_processor_id : ℕ
  pub apic_id : ℕ
  pub flags : ℕ

-- `madtEntry1_t`: an I/O APIC.
pub record MadtEntry1 : Type 0 where
  pub ioapic_id : ℕ
  pub reserved : ℕ
  pub ioapic_addr : ℕ
  pub gsi_base : ℕ

-- `madtEntry2_t`: an interrupt source override.
pub record MadtEntry2 : Type 0 where
  pub bus_src : ℕ
  pub irq_src : ℕ
  pub gsi : ℕ
  pub flags : ℕ

-- `madtEntry4_t`: a non-maskable interrupt.
pub record MadtEntry4 : Type 0 where
  pub acpi_processor_id : ℕ
  pub flags : ℕ
  pub lint : ℕ

-- `madtEntry5_t`: another address of the local APIC.
pub record MadtEntry5 : Type 0 where
  pub reserved : ℕ
  pub lapic_override : ℕ

-- `madtInfo_t`; the five arrays are what `kmalloc` returned, with no bound of their own.
pub record MadtInfo : Type 0 where
  pub madt_entry0_count : ℕ
  pub madt_entry1_count : ℕ
  pub madt_entry2_count : ℕ
  pub madt_entry4_count : ℕ
  pub madt_entry5_count : ℕ
  pub madt_entry0 : ℕ → MadtEntry0
  pub madt_entry1 : ℕ → MadtEntry1
  pub madt_entry2 : ℕ → MadtEntry2
  pub madt_entry4 : ℕ → MadtEntry4
  pub madt_entry5 : ℕ → MadtEntry5
  pub lapic_addr : ℕ

abbrev pub read16 : (ℕ → ℕ) → ℕ → ℕ
read16 p k = p k + p (k + 1) * 2 ^ 8

abbrev pub read32 : (ℕ → ℕ) → ℕ → ℕ
read32 p k = p k + p (k + 1) * 2 ^ 8 + p (k + 2) * 2 ^ 16 + p (k + 3) * 2 ^ 24

-- The casts of the pointer behind an entry's two header bytes: the packed structures.
unfoldable pub entry0 : (ℕ → ℕ) → MadtEntry0
entry0 p = record { acpi_processor_id = p 0; apic_id = p 1; flags = read32 p 2 }

unfoldable pub entry1 : (ℕ → ℕ) → MadtEntry1
entry1 p = record {
  ioapic_id = p 0;
  reserved = p 1;
  ioapic_addr = read32 p 2;
  gsi_base = read32 p 6;
}

unfoldable pub entry2 : (ℕ → ℕ) → MadtEntry2
entry2 p = record { bus_src = p 0; irq_src = p 1; gsi = read32 p 2; flags = read16 p 6 }

unfoldable pub entry4 : (ℕ → ℕ) → MadtEntry4
entry4 p = record { acpi_processor_id = p 0; flags = read16 p 1; lint = p 3 }

unfoldable pub entry5 : (ℕ → ℕ) → MadtEntry5
entry5 p = record { reserved = read16 p 0; lapic_override = p 2 }

-- The cases of the `switch` on the entry's type; the counts are bytes.
unfoldable pub store0 : (ℕ → ℕ) → MadtInfo → MadtInfo
store0 p info = record info {
  madt_entry0_count = u8 (suc info.madt_entry0_count);
  madt_entry0 = update info.madt_entry0 info.madt_entry0_count (entry0 p);
}

unfoldable pub store1 : (ℕ → ℕ) → MadtInfo → MadtInfo
store1 p info = record info {
  madt_entry1_count = u8 (suc info.madt_entry1_count);
  madt_entry1 = update info.madt_entry1 info.madt_entry1_count (entry1 p);
}

unfoldable pub store2 : (ℕ → ℕ) → MadtInfo → MadtInfo
store2 p info = record info {
  madt_entry2_count = u8 (suc info.madt_entry2_count);
  madt_entry2 = update info.madt_entry2 info.madt_entry2_count (entry2 p);
}

unfoldable pub store4 : (ℕ → ℕ) → MadtInfo → MadtInfo
store4 p info = record info {
  madt_entry4_count = u8 (suc info.madt_entry4_count);
  madt_entry4 = update info.madt_entry4 info.madt_entry4_count (entry4 p);
}

unfoldable pub store5 : (ℕ → ℕ) → MadtInfo → MadtInfo
store5 p info = record info {
  madt_entry5_count = u8 (suc info.madt_entry5_count);
  madt_entry5 = update info.madt_entry5 info.madt_entry5_count (entry5 p);
}

unfoldable pub store_entry : ℕ → (ℕ → ℕ) → MadtInfo → MadtInfo
store_entry zero p info = store0 p info
store_entry (suc zero) p info = store1 p info
store_entry (suc (suc zero)) p info = store2 p info
store_entry (suc (suc (suc zero))) p info = info
store_entry (suc (suc (suc (suc zero)))) p info = store4 p info
store_entry (suc (suc (suc (suc (suc zero))))) p info = store5 p info
store_entry (suc (suc (suc (suc (suc (suc n)))))) p info = info

-- What `i` is when the next round begins: it passes the two header bytes, `entrySize - 3` is added as
-- an `int`, and the loop counts on.
unfoldable pub next_entry : ℕ → ℕ → ℕ
next_entry i entry_size = u64 (u64 (u64 (i + 2) + u64 (2 ^ 64 + entry_size - 3)) + 1)

-- The loop of `madtInit` below `limit`; `none` when the fuel ends before the loop does.
unfoldable pub madt_loop : ℕ → (ℕ → ℕ) → ℕ → ℕ → MadtInfo → Option MadtInfo
madt_loop zero entries limit i info = if ltb i limit then none else some info
madt_loop (suc fuel) entries limit i info =
    let rest =
      madt_loop fuel entries limit (next_entry i (entries (u64 (i + 1))))
        (store_entry (entries i) (λ k. entries (u64 (i + 2) + k)) info) in
    if ltb i limit then rest else some info

-- `madtInit` on the table that starts with `header_length` and `lapic_addr`.
unfoldable pub madt_init : ℕ → ℕ → ℕ → (ℕ → ℕ) → MadtInfo → Option MadtInfo
madt_init fuel header_length lapic entries info =
    madt_loop fuel entries (u64 (2 ^ 64 + header_length - 44)) 0
      (record info { lapic_addr = lapic })
