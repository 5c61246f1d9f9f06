-- ===== src/Mm/Paging.antt =====
-- kernel/mm/virtualPageManager.c: the kernel's page tables. Physical memory is a function from the
-- number of a 64-bit word; a table is given by its physical address.
pub mod Tables
pub mod Walk
pub mod Kernel
pub mod Space
use seaweed.Base.{
  ℕ, zero, suc, ◌+◌, ◌-◌, ◌*◌, ◌/◌, ◌%◌, ◌^◌, ◌<◌, ◌≤◌, ◌≡◌, ◌≢◌, refl, arith, ◌==◌, if◌then◌else◌,
  Bool, true, false, ltb, leb, ==_iff, ltb→lt, leb→le, lt→ltb,
}
use seaweed.Base.{
  Bool-cases, Option-cases, inl, inr, ◌⊎◌, ◌↔◌, not, ◌&&◌, ◌||◌, Option, none, some, sym, ap, ◌∙◌,
  List, [], ◌∷◌, ◌++◌, map,
}
use seaweed.Base.{
  u8, u16, u32, u64, ◌<<<◌, ◌>>>◌, bit_and, bit_or, bit_xor, not32, length, get_elem?, get_or, take,
  drop, replicate, update,
}
use seaweed.Mm.Layout.{
  kpml4_addr, kpml3_addr, kpml2_addr_1g, kpml2_addr_2g, kpml2_addr_3g, kpml2_addr_4g, kpml2_addr_hh,
  kpml3_addr_hh, with_kpage_flags,
}

-- Physical memory, by the 64-bit word.
abbrev pub Words : Type 0
Words = ℕ → ℕ

-- `table[index] = entry`
abbrev pub put : Words → ℕ → ℕ → ℕ → Words
put m table index entry = update m (table / 8 + index) (u64 entry)

-- `memset` with 0 from the word `at` on, for `count` words.
abbrev pub zero_words : Words → ℕ → ℕ → Words
zero_words m at count w = if leb at w && ltb w (at + count) then 0 else m w

-- `physical | (1 << 7) | KPAGE_FLAGS`
unfoldable pub big_page : ℕ → ℕ
big_page physical = with_kpage_flags (bit_or physical (1 <<< 7))

-- A round of the loop of `initVMM`, on the five tables of big pages.
unfoldable pub map_round : Words → ℕ → ℕ → Words
map_round m i physical =
    let m1 = put m kpml2_addr_1g i (big_page physical) in
    let m2 = put m1 kpml2_addr_2g i (big_page (physical + 0x40000000)) in
    let m3 = put m2 kpml2_addr_3g i (big_page (physical + 0x40000000 * 2)) in
    let m4 = put m3 kpml2_addr_4g i (big_page (physical + 0x40000000 * 3)) in
    put m4 kpml2_addr_hh i (big_page physical)

-- The loop; `left` rounds remain from `i` on.
unfoldable pub map_rounds : Words → ℕ → ℕ → ℕ → Words
map_rounds m zero i physical = m
map_rounds m (suc left) i physical =
    map_rounds (map_round m i physical) left (i + 1) (u64 (physical + 0x200000))

-- The entries of the upper tables.
unfoldable pub link_tables : Words → Words
link_tables m =
    let m1 = put m kpml4_addr 256 (with_kpage_flags kpml3_addr) in
    let m2 = put m1 kpml4_addr 0 (with_kpage_flags kpml3_addr) in
    let m3 = put m2 kpml3_addr 0 (with_kpage_flags kpml2_addr_1g) in
    let m4 = put m3 kpml3_addr 1 (with_kpage_flags kpml2_addr_2g) in
    let m5 = put m4 kpml3_addr 2 (with_kpage_flags kpml2_addr_3g) in
    let m6 = put m5 kpml3_addr 3 (with_kpage_flags kpml2_addr_4g) in
    let m7 = put m6 kpml4_addr 511 (with_kpage_flags kpml3_addr_hh) in
    put m7 kpml3_addr_hh 510 (with_kpage_flags kpml2_addr_hh)

-- What `initVMM` makes of the memory behind the tables.
unfoldable pub init_tables : Words → Words
init_tables m = map_rounds (link_tables (zero_words m (kpml4_addr / 8) (0x8000 / 8))) 512 0 0

-- `pageDirectoryEntry_t`
pub record PageDirectoryEntry : Type 0 where
  pub pml4 : ℕ
  pub pml3 : ℕ
  pub pml2 : ℕ
  pub pml1 : ℕ
  pub flags : ℕ

abbrev pub no_entry : PageDirectoryEntry
no_entry = record { pml4 = 0; pml3 = 0; pml2 = 0; pml1 = 0; flags = 0 }

-- The globals of the file, with the memory and the page tables' root of the core that runs.
pub record Vmm : Type 0 where
  pub page_directory_tables : ℕ → PageDirectoryEntry
  pub page_directory_count : ℕ
  pub words : Words
  pub cr3 : ℕ

-- `initVMM`; the hundred entries of the table of address spaces are zeroed.
unfoldable pub init_vmm : Vmm → Vmm
init_vmm v = record {
  page_directory_tables = λ k. if ltb k 100 then no_entry else v.page_directory_tables k;
  page_directory_count = 1000;
  words = init_tables v.words;
  cr3 = kpml4_addr;
}
