-- ===== src/Acpi/Rsdp.antt =====
-- kernel/acpi/rsdp.c and rsdp.h: the root tables of the firmware and the search for one of the others.
-- What stands at an address is a parameter: `sdts` a root table, `headers` the header of a table.
pub mod First
use seaweed.Base.{
  ℕ, zero, suc, ◌+◌, ◌-◌, ◌*◌, ◌/◌, ◌%◌, ◌^◌, ◌<◌, ◌≤◌, ◌≡◌, ◌≢◌, refl, arith, ◌==◌, if◌then◌else◌,
  Bool, true, false, ltb, leb, ==_iff, ltb→lt, leb→le, lt→ltb,
}
use seaweed.Base.{
  Bool-cases, Option-cases, inl, inr, ◌⊎◌, ◌↔◌, not, ◌&&◌, ◌||◌, Option, none, some, sym, ap, ◌∙◌,
  List, [], ◌∷◌, ◌++◌, map,
}
use seaweed.Base.{
  u8, u16, u32, u64, ◌<<<◌, ◌>>>◌, bit_and, bit_or, bit_xor, not32, length, get_elem?, get_or, take,
  drop, replicate, update,
}
use seaweed.Libk.Text.{strncmp}
use seaweed.Mm.Layout.{high_vma}

-- `acpihdr_t`
pub record AcpiHdr : Type 0 where
  pub signature : ℕ → ℕ
  pub length : ℕ
  pub revision : ℕ
  pub checksum : ℕ
  pub oemid : ℕ → ℕ
  pub oemtableid : ℕ → ℕ
  pub oem_revision : ℕ
  pub creator_id : ℕ
  pub creator_revision : ℕ

-- `rsdp_t`
pub record Rsdp : Type 0 where
  pub signature : ℕ → ℕ
  pub checksum : ℕ
  pub oemid : ℕ → ℕ
  pub revision : ℕ
  pub rsdt_addr : ℕ
  pub length : ℕ
  pub xsdt_addr : ℕ
  pub ext_checksum : ℕ
  pub reserved : ℕ → ℕ

-- `rsdt_t` and `xsdt_t`, whose pointers have 32 and 64 bits.
pub record Sdt : Type 0 where
  pub acpihdr : AcpiHdr
  pub acpiptr : ℕ → ℕ

-- The globals `rsdt` and `xsdt`; `none` is NULL.
pub record RootTables : Type 0 where
  pub rsdt : Option Sdt
  pub xsdt : Option Sdt

-- `rsdpInit`; the address of the longer table is used as it is, that of the shorter one in the upper
-- half.
unfoldable pub rsdp_init : (ℕ → Sdt) → Rsdp → RootTables → RootTables
rsdp_init sdts p tables =
    if p.xsdt_addr == 0
    then if p.rsdt_addr == 0
      then tables
      else record tables { rsdt = some (sdts (u64 (p.rsdt_addr + high_vma))) }
    else record tables { xsdt = some (sdts p.xsdt_addr) }

-- `sizeof(acpihdr_t)`
abbrev pub acpihdr_size : ℕ
acpihdr_size = 36

-- The bound of the loops, the bytes behind the header.
unfoldable pub entries : Sdt → ℕ
entries t = u64 (t.acpihdr.length + 2 ^ 64 - acpihdr_size)

abbrev pub address_of : Sdt → ℕ → ℕ
address_of t i = u64 (t.acpiptr i + high_vma)

-- A loop of `findSDT`; `left` rounds remain from `i` on.
unfoldable pub find_in : (ℕ → AcpiHdr) → (ℕ → ℕ) → Sdt → ℕ → ℕ → Option ℕ
find_in headers signature t zero i = none
find_in headers signature t (suc left) i =
    let rest = find_in headers signature t left (i + 1) in
    if strncmp (headers (address_of t i)).signature signature 4 == 0
    then some (address_of t i)
    else rest

unfoldable pub find_in_table : (ℕ → AcpiHdr) → (ℕ → ℕ) → Option Sdt → Option ℕ
find_in_table headers signature none = none
find_in_table headers signature (some t) = find_in headers signature t (entries t) 0

-- `findSDT`; `none` is NULL.
unfoldable pub find_sdt : (ℕ → AcpiHdr) → RootTables → (ℕ → ℕ) → Option ℕ
find_sdt headers tables signature = elim (find_in_table headers signature tables.xsdt) [
  | some a ↦ some a
  | none ↦ find_in_table headers signature tables.rsdt
]
