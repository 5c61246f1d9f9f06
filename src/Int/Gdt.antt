-- ===== src/Int/Gdt.antt =====
-- kernel/int/gdt.c and kernel/int/tss.c: the descriptor table of a core and the task state segments
-- that the descriptors point to. `gdt_at` and `tss_at` are the addresses of the two arrays.
pub mod Laws
use seaweed.Base.{
  ℕ, zero, suc, ◌+◌, ◌-◌, ◌*◌, ◌/◌, ◌%◌, ◌^◌, ◌<◌, ◌≤◌, ◌≡◌, ◌≢◌, refl, arith, ◌==◌, if◌then◌else◌,
  Bool, true, false, ltb, leb, ==_iff, ltb→lt, leb→le, lt→ltb,
}
use seaweed.Base.{
  Bool-cases, Option-cases, inl, inr, ◌⊎◌, ◌↔◌, not, ◌&&◌, ◌||◌, Option, none, some, sym, ap, ◌∙◌,
  List, [], ◌∷◌, ◌++◌, map,
}
use seaweed.Base.{
  u8, u16, u32, u64, ◌<<<◌, ◌>>>◌, bit_and, bit_or, bit_xor, not32, length, get_elem?, get_or, take,
  drop, replicate, update,
}

-- `gdtEntry_t`
pub record GdtEntry : Type 0 where
  pub limit : ℕ
  pub base_low : ℕ
  pub base_mid : ℕ
  pub access : ℕ
  pub granularity : ℕ
  pub base_high : ℕ

-- `gdtTSSentry_t`
pub record GdtTssEntry : Type 0 where
  pub length : ℕ
  pub base_low : ℕ
  pub base_mid : ℕ
  pub flags1 : ℕ
  pub flags2 : ℕ
  pub base_high : ℕ
  pub base_high32 : ℕ
  pub reserved : ℕ

-- `gdtPtr_t`
pub record GdtPtr : Type 0 where
  pub size : ℕ
  pub addr : ℕ

-- `gdt_t`
pub record GdtTable : Type 0 where
  pub gdt_entries : ℕ → GdtEntry
  pub tss : GdtTssEntry
  pub gdt_ptr : GdtPtr

-- A descriptor with no base and no limit.
abbrev pub flat : ℕ → ℕ → GdtEntry
flat access_bits granularity_bits = record {
  limit = 0;
  base_low = 0;
  base_mid = 0;
  access = access_bits;
  granularity = granularity_bits;
  base_high = 0;
}

-- The four segments: kernel code and data, user code and data. Entry 0 stays as it is.
unfoldable pub segments : (ℕ → GdtEntry) → ℕ → GdtEntry
segments entries =
    update (update (update (update entries 1 (flat 0x9a 0x20)) 2 (flat 0x92 0)) 3 (flat 0xfd 0xaf))
      4 (flat 0xf3 0xcf)

-- `createNewGDT` on the table of one core, which lies at `gdt_at + core * 66`; the result's pointer
-- is what `lgdt` loads.
unfoldable pub create_new_gdt : ℕ → (ℕ → GdtTable) → ℕ → ℕ → ℕ → GdtTable
create_new_gdt gdt_at gdt core tss_addr =
    let table = gdt core in
    update gdt core (record {
      gdt_entries = segments table.gdt_entries;
      tss = record {
        length = 104;
        base_low = u16 tss_addr;
        base_mid = u8 (tss_addr >>> 16);
        flags1 = 0x89;
        flags2 = 0;
        base_high = u8 (tss_addr >>> 24);
        base_high32 = u32 (tss_addr >>> 32);
        reserved = table.tss.reserved;
      };
      gdt_ptr = record { size = 66 - 10 - 1; addr = u64 (gdt_at + core * 66) };
    })

-- `tss_t`, less the reserved words, which no function reads or writes.
pub record Tss : Type 0 where
  pub rsp0 : ℕ
  pub rsp1 : ℕ
  pub rsp2 : ℕ
  pub ist : ℕ → ℕ
  pub iopb : ℕ

-- The array of `tss.c` and the static counters of `addNewTSS`. `capacity` is the entries that the
-- block behind `tss` holds: eight after `initTSS`, and after each `krealloc` what it was asked for.
pub record TssArray : Type 0 where
  pub entries : ℕ → Tss
  pub max : ℕ
  pub current : ℕ
  pub capacity : ℕ

abbrev pub init_tss : (ℕ → Tss) → TssArray
init_tss found = record { entries = found; max = 8; current = 0; capacity = 8 }

-- `grabTSS`
abbrev pub grab_tss : ℕ → ℕ → ℕ
grab_tss tss_at index = u64 (tss_at + index * 104)

unfoldable pub add_new_tss : Tss → TssArray → TssArray
add_new_tss new_tss a =
    let current = u64 (suc a.current) in
    let full = ltb a.max current in
    record {
      entries = update a.entries (current - 1) new_tss;
      max = if full then u64 (a.max + 8) else a.max;
      current = current;
      capacity = if full then 8 else a.capacity;
    }

unfoldable pub create_generic_tss : ℕ → TssArray → TssArray
create_generic_tss rsp0 a =
    add_new_tss (record { rsp0 = rsp0; rsp1 = 0; rsp2 = 0; ist = λ _. 0; iopb = 0 }) a
