-- ===== src/Mm/Frames/Free.antt =====
-- `physicalPageFree` gives back what `physicalPageAlloc` took, and no page is handed out twice.
use seaweed.Base.{
  ℕ, ◌+◌, ◌-◌, ◌*◌, ◌/◌, ◌^◌, ◌<◌, ◌≡◌, ◌≢◌, refl, arith, if◌then◌else◌, Bool, true, false,
}
use seaweed.Base.{Bool-cases, inl, inr, ◌⊎◌, sym, ◌∙◌}
use seaweed.Base.{u64}
use mathlib.Core.Bool.{false≢true}
use seaweed.Libk.Bitmap.{isset}
use seaweed.Mm.Layout.{pagesize}
use seaweed.Mm.Run.Laws.{within, FreeRun, isset-clear_range}
use seaweed.Mm.Frames.{Frames, physical_page_alloc, physical_page_free}
use seaweed.Mm.Frames.Alloc.{IsRun, physical_page_alloc-FirstFit}

-- Freeing the `count` pages from page `q` on clears their bits and no other, as long as the end of
-- the run fits 64 bits.
pub isset-physical_page_free :
    (s : Frames) (q count j : ℕ)
    → (q + count) * pagesize < 2 ^ 64
    → isset (physical_page_free s (q * pagesize) count).bitmap j
      ≡ (if within q count j then false else isset s.bitmap j)
unfolding physical_page_free
isset-physical_page_free s q count j w =
    let first : u64 (q * pagesize + (pagesize - 1)) / pagesize ≡ q = omega arith in
    let rounds : u64 (q + count) - q ≡ count = omega arith in
    rw (first, rounds) (isset-clear_range s.bitmap q count j)

-- The bits of a run that was free are as before once they are set and cleared again.
restored :
    (s : Frames) (q count j : ℕ) (now : Bool)
    → FreeRun s.bitmap q count
    → now ≡ (if within q count j then true else isset s.bitmap j)
    → (if within q count j then false else now) ≡ isset s.bitmap j
restored s q count j now run e = elim (Bool-cases (within q count j)) [
  | inl at ↦ rw at (sym (run j (ground arith) (ground arith)))
  | inr out ↦ rw out (e ∙ (rw out refl))
]

-- physicalPageFree of what physicalPageAlloc returned, for 1 to 2^52 - 1 pages and below 2^64 bytes of
-- memory: where the allocation found a run of free pages, its address is that of the run, and freeing it
-- gives the bitmap back, bit by bit. Where there is none, the allocation returned 0 and changed nothing,
-- but freeing that address clears the bits of the lowest pages.
pub physical_page_free-alloc :
    (s : Frames) (count j : ℕ)
    → 0 < count
    → count < 2 ^ 52
    → s.total_detected_memory < 2 ^ 64
    → let (t, addr) = physical_page_alloc s count in
      let after = isset (physical_page_free t addr count).bitmap j in
      ((q : ℕ) × (addr ≡ q * pagesize) × IsRun s count q × (after ≡ isset s.bitmap j))
      ⊎ (((q : ℕ) → ¬ IsRun s count q)
          × (addr ≡ 0)
          × (t ≡ s)
          × (after ≡ (if within 0 count j then false else isset s.bitmap j)))
physical_page_free-alloc s count j pos few w = elim (physical_page_alloc-FirstFit s count pos w) [
  | inl (q, at, (fits, run), _, marked, _) ↦ inl (
    q,
    at,
    (fits, run),
    rw at (
        isset-physical_page_free (physical_page_alloc s count).0 q count j (omega arith)
        ∙ restored s q count j _ run (marked j)),
  )
  | inr (no_run, at, same) ↦
      inr (no_run, at, same, rw (same, at) (isset-physical_page_free s 0 count j (omega arith)))
]

-- What a successful allocation at page `q` says of the pages of its run.
record Success (s : Frames) (count q : ℕ) (t : Frames) : Type 0 where
  was_free : FreeRun s.bitmap q count
  is_set : (j : ℕ) → within q count j ≡ true → isset t.bitmap j ≡ true
  same_size : t.total_detected_memory ≡ s.total_detected_memory

alloc-Success :
    (s : Frames) (count q : ℕ)
    → 0 < count
    → s.total_detected_memory < 2 ^ 64
    → let (t, addr) = physical_page_alloc s count in
      addr ≢ 0 → addr ≡ q * pagesize → Success s count q t
alloc-Success s count q pos w ne e = elim (physical_page_alloc-FirstFit s count pos w) [
  | inl (q', at, (_, run), _, marked, size) ↦
      let same : q' ≡ q = omega arith in
      record {
        was_free = rw same at run;
        is_set = λ j inside. marked j ∙ rw (same, inside) refl;
        same_size = size;
      }
  | inr (_, at, _) ↦ absurd (ne at)
]

-- Two allocations that both succeed, one after the other, have no page in common.
alloc_disjoint :
    (s : Frames) (m n j q r : ℕ)
    → 0 < m
    → 0 < n
    → s.total_detected_memory < 2 ^ 64
    → let (t, a) = physical_page_alloc s m in
      let (u, b) = physical_page_alloc t n in
      a ≢ 0
      → b ≢ 0
      → a ≡ q * pagesize
      → b ≡ r * pagesize
      → within q m j ≡ true
      → within r n j ≡ false
alloc_disjoint s m n j q r pm pn w a_ne b_ne a_at b_at inside =
    let first = alloc-Success s m q pm w a_ne a_at in
    let second =
      alloc-Success (physical_page_alloc s m).0 n r pn (rw first.same_size w) b_ne b_at in
    elim (Bool-cases (within r n j)) [
      | inl both ↦
          let free = second.was_free j (ground arith) (ground arith) in
          absurd (false≢true (sym free ∙ first.is_set j inside))
      | inr apart ↦ apart
    ]
