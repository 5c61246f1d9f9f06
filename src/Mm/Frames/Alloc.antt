-- ===== src/Mm/Frames/Alloc.antt =====
-- `physicalPageAlloc` is a first fit over the pages that the bitmap has clear.
use seaweed.Base.{ℕ, ◌+◌, ◌*◌, ◌/◌, ◌^◌, ◌<◌, ◌≤◌, ◌≡◌, refl, arith, if◌then◌else◌, true}
use seaweed.Base.{inl, inr, ◌⊎◌, u64, Option, none, some}
use seaweed.Libk.Bitmap.{isset}
use seaweed.Mm.Layout.{pagesize}
use seaweed.Mm.Run.{first_free}
use seaweed.Mm.Run.Laws.{
  within, FreeRun, FirstRun, FirstFree, first_free-FirstFree, FirstRun-none, search-FirstRun_all,
  isset-set_range,
}
use seaweed.Mm.Frames.{Frames, page_count, claim, search_from, physical_page_alloc}

search_from-FirstRun :
    (s : Frames) (count : ℕ) (f : Option ℕ)
    → 0 < count
    → s.total_detected_memory < 2 ^ 64
    → FirstFree s.bitmap (page_count s) 0 f
    → FirstRun s.bitmap pagesize count (page_count s) 0 (search_from s count f)
unfolding search_from
search_from-FirstRun s count none pos w first =
    FirstRun-none s.bitmap pagesize count (page_count s) pos first
search_from-FirstRun s count (some f) pos w first =
    let start : u64 (f * pagesize) ≡ f * pagesize = omega arith in
    rw start (search-FirstRun_all s.bitmap pagesize count (page_count s) f pos (omega arith) first)

-- The run that an allocation of `count` pages looks for: free, and below the end of memory.
abbrev pub IsRun : Frames → ℕ → ℕ → Type 0
IsRun s count q = (q + count ≤ page_count s) × FreeRun s.bitmap q count

-- What the caller sees: the first run's address with exactly its pages marked, or 0 and nothing
-- changed where no run is left.
abbrev pub FirstFit : Frames → ℕ → Frames × ℕ → Type 0
FirstFit s count (t, addr) =
    ((q : ℕ) × (addr ≡ q * pagesize)
      × IsRun s count q
      × ((q' : ℕ) → IsRun s count q' → q ≤ q')
      × ((j : ℕ) → isset t.bitmap j ≡ (if within q count j then true else isset s.bitmap j))
      × (t.total_detected_memory ≡ s.total_detected_memory))
    ⊎ (((q : ℕ) → ¬ IsRun s count q) × (addr ≡ 0) × (t ≡ s))

claim-FirstFit :
    (s : Frames) (count : ℕ) (r : Option ℕ)
    → FirstRun s.bitmap pagesize count (page_count s) 0 r
    → FirstFit s count (claim s count r)
unfolding claim
claim-FirstFit s count none h = inr (λ q run. h q (omega arith) run.0 run.1, refl, refl)
claim-FirstFit s count (some base) (q, at, _, fits, run, least) = inl (
  q,
  at,
  (fits, run),
  λ q' run'. least q' (omega arith) run'.0 run'.1,
  λ j. let page : base / pagesize ≡ q = omega arith in rw page (isset-set_range s.bitmap q count j),
  refl,
)

-- An allocation of one page or more is a first fit: it returns the lowest run of free pages that
-- lies wholly below the end of memory and marks exactly that run, or, where there is no such run,
-- it returns 0 and changes nothing.
pub physical_page_alloc-FirstFit :
    (s : Frames) (count : ℕ)
    → 0 < count
    → s.total_detected_memory < 2 ^ 64
    → FirstFit s count (physical_page_alloc s count)
unfolding physical_page_alloc
physical_page_alloc-FirstFit s count pos w = claim-FirstFit s count _ (
    search_from-FirstRun s count (first_free s.bitmap (page_count s) 0) pos w
      (first_free-FirstFree s.bitmap (page_count s) (page_count s) 0 (omega arith)))
