-- ===== src/Mm/Paging/Space.antt =====
-- kernel/mm/virtualPageManager.c: createNewAddressSpace and freeAddressSpace, on the frames that
-- physicalPageAlloc hands out. A table is written through HIGH_VMA, at its physical address.
pub mod Slots
pub mod Taken
pub mod Pages
pub mod Built
pub mod Placed
pub mod Created
pub mod Sequence
pub mod Isolated
use seaweed.Base.{
  ℕ, zero, suc, ◌+◌, ◌-◌, ◌*◌, ◌/◌, ◌%◌, ◌^◌, ◌<◌, ◌≤◌, ◌≡◌, ◌≢◌, refl, arith, ◌==◌, if◌then◌else◌,
  Bool, true, false, ltb, leb, ==_iff, ltb→lt, leb→le, lt→ltb,
}
use seaweed.Base.{
  Bool-cases, Option-cases, inl, inr, ◌⊎◌, ◌↔◌, not, ◌&&◌, ◌||◌, Option, none, some, sym, ap, ◌∙◌,
  List, [], ◌∷◌, ◌++◌, map,
}
use seaweed.Base.{
  u8, u16, u32, u64, ◌<<<◌, ◌>>>◌, bit_and, bit_or, bit_xor, not32, length, get_elem?, get_or, take,
  drop, replicate, update,
}
use seaweed.Mm.Layout.{with_kpage_flags, kpml3_addr, kpml3_addr_hh}
use seaweed.Mm.Frames.{Frames, physical_page_alloc, physical_page_free}
use seaweed.Mm.Paging.{Words, put, PageDirectoryEntry, no_entry, Vmm}

-- The first index from `i` on at which a field is 0; `none` is the -1 of the source.
unfoldable pub first_zero : (ℕ → ℕ) → ℕ → ℕ → Option ℕ
first_zero field zero i = none
first_zero field (suc left) i =
    let rest = first_zero field left (i + 1) in if field i == 0 then some i else rest

unfoldable pub find_first_free_slot : Vmm → Option ℕ
find_first_free_slot v = first_zero (λ i. (v.page_directory_tables i).pml4) v.page_directory_count 0

-- The loops that map the pages one behind the other, `step` bytes each.
unfoldable pub fill_pages : Words → ℕ → ℕ → ℕ → ℕ → ℕ → ℕ → Words
fill_pages m table zero i physical step flags = m
fill_pages m table (suc left) i physical step flags =
    fill_pages (put m table i (bit_or physical flags)) table left (i + 1) (u64 (physical + step))
      step flags

-- The entries that import the kernel's mappings and link the new tables.
unfoldable pub link_space : Words → ℕ → ℕ → ℕ → Words
link_space m pml4 pml3 pml2 =
    let m1 = put m pml4 256 (with_kpage_flags kpml3_addr) in
    let m2 = put m1 pml4 511 (with_kpage_flags kpml3_addr_hh) in
    let m3 = put m2 pml4 0 (with_kpage_flags pml3) in put m3 pml3 0 (with_kpage_flags pml2)

-- The words of a space of 4 KiB pages from the physical address `base` on, and of one of 2 MiB pages.
unfoldable pub small_space : Words → ℕ → ℕ → ℕ → ℕ → ℕ → ℕ → ℕ → Words
small_space m pml4 pml3 pml2 pml1 base size flags =
    fill_pages (put (link_space m pml4 pml3 pml2) pml2 0 (bit_or pml1 flags)) pml1 size 0 base
      0x1000 flags

unfoldable pub big_space : Words → ℕ → ℕ → ℕ → ℕ → ℕ → ℕ → Words
big_space m pml4 pml3 pml2 base size flags =
    fill_pages (link_space m pml4 pml3 pml2) pml2 size 0 base 0x200000 flags

-- The space in the slot `index`.
unfoldable pub build_space : Vmm → Frames → ℕ → ℕ → ℕ → Vmm × Frames
build_space v f index size flags =
    let (f1, pml4) = physical_page_alloc f 1 in
    let (f2, pml3) = physical_page_alloc f1 1 in
    let (f3, pml2) = physical_page_alloc f2 1 in
    let (f4, pml1) = physical_page_alloc f3 1 in
    let (small, base) = physical_page_alloc f4 size in
    let (large, big_base) = physical_page_alloc f3 (u64 (size * 0x200)) in
    let old = v.page_directory_tables index in
    let entry = record old { pml4 = pml4; pml3 = pml3; pml2 = pml2; flags = flags } in
    if bit_and flags (1 <<< 7) == 0
    then (
      record v {
        page_directory_tables = update v.page_directory_tables index (record entry { pml1 = pml1 });
        words = small_space v.words pml4 pml3 pml2 pml1 base size flags;
      },
      small,
    )
    else (
      record v {
        page_directory_tables = update v.page_directory_tables index entry;
        words = big_space v.words pml4 pml3 pml2 big_base size flags;
      },
      large,
    )

-- `none` is an access at index -1, where no slot is free.
unfoldable pub create_new_address_space : Vmm → Frames → ℕ → ℕ → Option (Vmm × Frames × ℕ)
create_new_address_space v f size flags = elim (find_first_free_slot v) [
  | none ↦ none
  | some index ↦ let (v', f') = build_space v f index size flags in some (v', f', index)
]

unfoldable pub free_address_space : Vmm → Frames → ℕ → Vmm × Frames
free_address_space v f index =
    let e = v.page_directory_tables index in
    let f1 = physical_page_free f e.pml4 1 in
    let f2 = physical_page_free f1 e.pml3 1 in
    let f3 = physical_page_free f2 e.pml2 1 in
    (
      record v { page_directory_tables = update v.page_directory_tables index no_entry },
      physical_page_free f3 e.pml1 1,
    )
