-- ===== src/Tests/Pages.antt =====
-- kernel/mm/physicalPageManager.c on small memories.
use seaweed.Base.{inl, inr}
use seaweed.Base.{ℕ, ◌*◌, ◌/◌, ◌≤◌, ◌≡◌, ◌≢◌, refl, arith, ◌==◌, if◌then◌else◌, true, false, ltb}
use seaweed.Base.{◌⊎◌, ◌↔◌, ◌||◌, List, [], ◌∷◌}
use seaweed.Base.{u64}
use seaweed.Libk.Bitmap.{set, isset}
use seaweed.Mm.Run.{first_free, search, set_range}
use seaweed.Mm.Layout.{pagesize}
use seaweed.Mm.Run.Laws.{within}
use seaweed.Mm.Frames.{
  Frames, MmapEntry, add_entries, add_entry, zero_bytes, init_pmm, physical_page_alloc,
  physical_page_free,
}
use seaweed.Mm.Frames.Alloc.{IsRun, FirstFit, physical_page_alloc-FirstFit}
use seaweed.Mm.Frames.Free.{isset-physical_page_free, physical_page_free-alloc}
use seaweed.Mm.Frames.Init.{
  AllAligned, any_reserves, total_length, init_pmm_marks, alloc-after_init,
}

-- Ten pages, of which 0, 1 and 4 are taken.
abbrev ten_pages : Frames
ten_pages = record { bitmap = λ a. if a == 0 then 0b10011 else 0; total_detected_memory = 0xa000 }

-- What the boot loader leaves: no memory counted, and a stale bit for page 0x133.
abbrev at_boot : Frames
at_boot = record { bitmap = λ a. if a == 0x26 then 8 else 0; total_detected_memory = 0 }

abbrev memory_map : List MmapEntry
memory_map =
    record { base = 0; length = 0x130000; type = 1 }
    ∷ record { base = 0x130000; length = 0x2000; type = 2 }
    ∷ record { base = 0x132000; length = 0x8000; type = 1 }
    ∷ []

first_fits :
    ((physical_page_alloc ten_pages 2).1 ≡ 0x2000)
    × ((physical_page_alloc ten_pages 3).1 ≡ 0x5000)
    × ((physical_page_alloc ten_pages 6).1 ≡ 0)
unfolding physical_page_alloc first_free search set_range isset set
first_fits = (refl, refl, refl)

-- The lowest free page behind the reserved ones, and the first pair behind the stale bit.
boots :
    ((physical_page_alloc (init_pmm at_boot memory_map) 1).1 ≡ 0x120000)
    × ((physical_page_alloc (init_pmm at_boot memory_map) 17).1 ≡ 0)
    × ((init_pmm at_boot memory_map).total_detected_memory ≡ 0x13a000)
unfolding physical_page_alloc init_pmm add_entries add_entry zero_bytes first_free search set_range
    isset set
boots = (refl, refl, refl)

physical_page_alloc-FirstFit_example : FirstFit ten_pages 3 (physical_page_alloc ten_pages 3)
physical_page_alloc-FirstFit_example =
    physical_page_alloc-FirstFit ten_pages 3 (omega arith) (omega arith)

isset-physical_page_free_example : isset (physical_page_free ten_pages 0x4000 1).bitmap 4 ≡ false
isset-physical_page_free_example = isset-physical_page_free ten_pages 4 1 4 (omega arith)

physical_page_free-alloc_example :
    let (t, addr) = physical_page_alloc ten_pages 2 in
    ((q : ℕ) × (addr ≡ q * pagesize)
      × IsRun ten_pages 2 q
      × (isset (physical_page_free t addr 2).bitmap 2 ≡ isset ten_pages.bitmap 2))
    ⊎ (((q : ℕ) → ¬ IsRun ten_pages 2 q)
        × (addr ≡ 0)
        × (t ≡ ten_pages)
        × (isset (physical_page_free t addr 2).bitmap 2
            ≡ (if within 0 2 2 then false else isset ten_pages.bitmap 2)))
physical_page_free-alloc_example =
    physical_page_free-alloc ten_pages 2 2 (omega arith) (omega arith) (omega arith)

memory_map-AllAligned : AllAligned memory_map
memory_map-AllAligned = (inl refl, (inr (refl, refl), (inl refl, tt)))

init_pmm_marks_example :
    (isset (init_pmm at_boot memory_map).bitmap 0x133
      ≡ ltb 0x133 0x120 || (any_reserves memory_map 0x133 || isset at_boot.bitmap 0x133))
    × ((init_pmm at_boot memory_map).total_detected_memory ≡ u64 (total_length memory_map))
init_pmm_marks_example = init_pmm_marks at_boot memory_map 0x133 refl memory_map-AllAligned

alloc-after_init_example :
    let t = init_pmm at_boot memory_map in
    let addr = (physical_page_alloc t 2).1 in
    ((addr ≡ 0) ↔ ((q : ℕ) → ¬ IsRun t 2 q))
    × ((j : ℕ)
        → addr ≢ 0
        → within (addr / pagesize) 2 j ≡ true
        → (0x120 ≤ j) × (any_reserves memory_map j ≡ false))
unfolding total_length
alloc-after_init_example =
    alloc-after_init at_boot memory_map 2 refl memory_map-AllAligned (omega arith) (omega arith)
