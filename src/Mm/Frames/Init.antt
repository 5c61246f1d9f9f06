-- ===== src/Mm/Frames/Init.antt =====
-- `initPMM`: which pages are marked when the kernel starts to allocate.
use seaweed.Base.{◌*◌, ◌%◌, ◌⊎◌}
use seaweed.Base.{ℕ, ◌+◌, ◌/◌, ◌^◌, ◌<◌, ◌≤◌, ◌≡◌, ◌≢◌, refl, arith, ◌==◌, Bool, true, false, ltb}
use seaweed.Base.{inl, inr, ◌↔◌, not, ◌&&◌, ◌||◌, ap, List, [], ◌∷◌}
use seaweed.Base.{u64}
use mathlib.Core.Path.{fun_ext}
use seaweed.Libk.Bitmap.{Bytes, isset}
use seaweed.Mm.Layout.{pagesize}
use seaweed.Mm.Run.Laws.{within, isset-set_range}
use seaweed.Mm.Frames.{
  Frames, MmapEntry, add_entry, add_entries, zero_bytes, init_pmm, physical_page_alloc,
}
use seaweed.Mm.Frames.Alloc.{IsRun, physical_page_alloc-FirstFit}

-- The entry is not usable memory, and a byte of page `j` lies in it.
pub reserves : MmapEntry → ℕ → Bool
reserves e j =
    not (e.type == 1) && (ltb e.base ((j + 1) * pagesize) && ltb (j * pagesize) (e.base + e.length))

-- The entries that are not usable memory start and end at page boundaries.
abbrev pub AllAligned : List MmapEntry → Type 0
AllAligned [] = Unit
AllAligned (e ∷ es) =
    ((e.type ≡ 1) ⊎ ((e.base % pagesize ≡ 0) × (e.length % pagesize ≡ 0))) × AllAligned es

unfoldable pub any_reserves : List MmapEntry → ℕ → Bool
unfolding reserves
any_reserves [] j = false
any_reserves (e ∷ es) j = reserves e j || any_reserves es j

unfoldable pub total_length : List MmapEntry → ℕ
total_length [] = 0
total_length (e ∷ es) = e.length + total_length es

within-reserved :
    (e : MmapEntry) (j : ℕ)
    → e.base % pagesize ≡ 0
    → e.length % pagesize ≡ 0
    → within (e.base / pagesize) (e.length / pagesize) j
      ≡ ltb e.base ((j + 1) * pagesize) && ltb (j * pagesize) (e.base + e.length)
within-reserved e j start size = ground arith

isset-add_entry :
    (s : Frames) (e : MmapEntry) (j : ℕ)
    → (e.type ≡ 1) ⊎ ((e.base % pagesize ≡ 0) × (e.length % pagesize ≡ 0))
    → isset (add_entry s e).bitmap j ≡ reserves e j || isset s.bitmap j
unfolding add_entry reserves
isset-add_entry s e j (inl usable) = ground arith
isset-add_entry s e j (inr (start, size)) = ground (
  arith,
  isset-set_range s.bitmap (e.base / pagesize) (e.length / pagesize) j,
  within-reserved e j start size,
)

isset-add_entries :
    (s : Frames) (es : List MmapEntry) (j : ℕ)
    → AllAligned es
    → isset (add_entries s es).bitmap j ≡ any_reserves es j || isset s.bitmap j
unfolding add_entries any_reserves
isset-add_entries s [] j aligned = refl
isset-add_entries s (e ∷ es) j (here, aligned) =
    ground (arith, isset-add_entries (add_entry s e) es j aligned, isset-add_entry s e j here)

size-add_entry :
    (s : Frames) (e : MmapEntry)
    → (add_entry s e).total_detected_memory ≡ u64 (s.total_detected_memory + e.length)
unfolding add_entry
size-add_entry s e = ground arith

total-add_entries :
    (s : Frames) (es : List MmapEntry)
    → s.total_detected_memory < 2 ^ 64
    → (add_entries s es).total_detected_memory ≡ u64 (s.total_detected_memory + total_length es)
unfolding add_entries total_length
total-add_entries s [] w = omega arith
total-add_entries s (e ∷ es) w =
    let grown = size-add_entry s e in
    omega (arith, total-add_entries (add_entry s e) es (rw grown (omega arith)), grown)

zero_bytes-none : (m : Bytes) → zero_bytes m 0 ≡ m
unfolding zero_bytes
zero_bytes-none m = fun_ext (λ a. ground arith)

-- Started with no memory counted yet, and where the entries that are not usable memory start and end
-- at page boundaries, `initPMM` marks every page that such an entry touches and the 0x120 pages at the
-- bottom, counts the lengths of all entries modulo 2^64, and leaves every other bit as the boot loader
-- left it: the zeroing at its start covers no byte.
pub init_pmm_marks :
    (s : Frames) (es : List MmapEntry) (j : ℕ)
    → s.total_detected_memory ≡ 0
    → AllAligned es
    → (isset (init_pmm s es).bitmap j ≡ ltb j 0x120 || (any_reserves es j || isset s.bitmap j))
      × ((init_pmm s es).total_detected_memory ≡ u64 (total_length es))
unfolding init_pmm
init_pmm_marks s es j none_yet aligned =
    let zeroed = record s { bitmap = zero_bytes s.bitmap (s.total_detected_memory / pagesize) } in
    let untouched : zero_bytes s.bitmap (s.total_detected_memory / pagesize) ≡ s.bitmap =
      rw none_yet (zero_bytes-none s.bitmap) in
    let covered = isset-add_entries zeroed es j aligned in
    (
      ground (
        arith,
        isset-set_range (add_entries zeroed es).bitmap 0 0x120 j,
        covered,
        ap (λ m. isset m j) untouched,
      ),
      omega (arith, total-add_entries zeroed es (omega arith)),
    )

not_reserved :
    (s : Frames) (es : List MmapEntry) (j : ℕ)
    → s.total_detected_memory ≡ 0
    → AllAligned es
    → isset (init_pmm s es).bitmap j ≡ false
    → (0x120 ≤ j) × (any_reserves es j ≡ false)
not_reserved s es j none_yet aligned free =
    ground (arith, (init_pmm_marks s es j none_yet aligned).0)

-- After `initPMM`, where the entries that are not usable memory start and end at page boundaries and
-- the lengths of all do not pass 2^64, an allocation returns 0 exactly where no run of free pages is
-- left, and no byte of the run that it returns otherwise lies in such an entry or in the 0x120 pages
-- at the bottom.
pub alloc-after_init :
    (s : Frames) (es : List MmapEntry) (count : ℕ)
    → s.total_detected_memory ≡ 0
    → AllAligned es
    → 0 < count
    → total_length es < 2 ^ 64
    → let t = init_pmm s es in
      let addr = (physical_page_alloc t count).1 in
      ((addr ≡ 0) ↔ ((q : ℕ) → ¬ IsRun t count q))
      × ((j : ℕ)
          → addr ≢ 0
          → within (addr / pagesize) count j ≡ true
          → (0x120 ≤ j) × (any_reserves es j ≡ false))
alloc-after_init s es count none_yet aligned pos w =
    elim (physical_page_alloc-FirstFit (init_pmm s es) count pos
      (rw (init_pmm_marks s es 0 none_yet aligned).1 (omega arith))) [
        | inl (q, at, run, _, _, _) ↦
            let clear = λ (j : ℕ) (lo : q ≤ j) (hi : j < q + count).
              not_reserved s es j none_yet aligned (run.1 j lo hi) in
            let above = (clear q (omega arith) (omega arith)).0 in
            (
              (λ zero. absurd (omega arith), λ none_left. absurd (none_left q run)),
              λ j ne inside.
                  let page : (physical_page_alloc (init_pmm s es) count).1 / pagesize ≡ q =
                    omega arith in
                  let here = rw page at inside in clear j (ground arith) (ground arith),
            )
        | inr (none_left, at, _) ↦ ((λ _. none_left, λ _. at), λ j ne _. absurd (ne at))
      ]
