-- ===== src/Mm/Paging/Space/Taken.antt =====
-- What an allocation takes, when a long enough run of pages is free.
use seaweed.Base.{
  ℕ, suc, ◌+◌, ◌*◌, ◌^◌, ◌<◌, ◌≤◌, ◌≡◌, ◌≢◌, refl, arith, if◌then◌else◌, true, false,
}
use seaweed.Base.{Bool-cases, inl, inr, sym, ap, ◌∙◌}
use seaweed.Base.{}
use mathlib.Core.Bool.{false≢true}
use seaweed.Libk.Bitmap.{isset}
use seaweed.Mm.Layout.{pagesize}
use seaweed.Mm.Run.Laws.{within, FreeRun}
use seaweed.Mm.Frames.{Frames, page_count, physical_page_alloc}
use seaweed.Mm.Frames.Alloc.{physical_page_alloc-FirstFit}

-- An allocation of `count` pages that took the run from `page` on, not behind page `r`.
pub record Takes (s : Frames) (count r : ℕ) (after : Frames × ℕ) : Type 0 where
  pub page : ℕ
  pub at : after.1 ≡ page * pagesize
  pub early : page ≤ r
  pub fits : page + count ≤ page_count s
  pub was_free : FreeRun s.bitmap page count
  pub marks :
      (j : ℕ) → isset after.0.bitmap j ≡ (if within page count j then true else isset s.bitmap j)
  pub same_size : after.0.total_detected_memory ≡ s.total_detected_memory

-- Where the pages from `r` on are free, the allocation succeeds.
pub alloc-Takes :
    (s : Frames) (count r : ℕ)
    → 0 < count
    → s.total_detected_memory < 2 ^ 64
    → r + count ≤ page_count s
    → FreeRun s.bitmap r count
    → Takes s count r (physical_page_alloc s count)
alloc-Takes s count r pos w fits run = elim (physical_page_alloc-FirstFit s count pos w) [
  | inl (q, at, (q_fits, free), least, marks, size) ↦ record {
    page = q;
    at = at;
    early = least r (fits, run);
    fits = q_fits;
    was_free = free;
    marks = marks;
    same_size = size;
  }
  | inr (no_run, _, _) ↦ absurd (no_run r (fits, run))
]

-- Memory after some allocations: the pages in use stay so.
pub record Later (f g : Frames) : Type 0 where
  pub keeps : (j : ℕ) → isset f.bitmap j ≡ true → isset g.bitmap j ≡ true
  pub same_size : g.total_detected_memory ≡ f.total_detected_memory

pub Later-trans : {f g h : Frames} → Later f g → Later g h → Later f h
Later-trans a b = record {
  keeps = λ j used. b.keeps j (a.keeps j used);
  same_size = b.same_size ∙ a.same_size;
}

-- A page that is free later was free before.
pub Later-free :
    {f g : Frames} (j : ℕ) → Later f g → isset g.bitmap j ≡ false → isset f.bitmap j ≡ false
Later-free {f} {g} j l free = elim (Bool-cases (isset f.bitmap j)) [
  | inl used ↦ absurd (false≢true (sym free ∙ l.keeps j used))
  | inr was ↦ was
]

-- A page in use is not a page that is free.
pub differ : (s : Frames) (a b : ℕ) → isset s.bitmap a ≡ true → isset s.bitmap b ≡ false → a ≢ b
differ s a b used free e = false≢true (sym free ∙ (ap (λ j. isset s.bitmap j) (sym e) ∙ used))

module _ {s : Frames} {after : Frames × ℕ} {count r : ℕ} (t : Takes s count r after) where
  pub Takes-Later : Later s after.0
  Takes-Later = record { keeps = λ j used. ground (arith, t.marks j); same_size = t.same_size }

  pub Takes-used : (j : ℕ) → t.page ≤ j → j < t.page + count → isset after.0.bitmap j ≡ true
  Takes-used j lo hi =
      let inside : within t.page count j ≡ true = ground arith in t.marks j ∙ rw inside refl

  -- The rest of the run stays free.
  pub Takes-rest : (n : ℕ) → FreeRun s.bitmap r (count + n) → FreeRun after.0.bitmap (r + count) n
  Takes-rest n run j lo hi =
      let apart : within t.page count j ≡ false = ground (arith, t.early) in
      t.marks j ∙ rw apart (run j (omega arith) (omega arith))

-- An allocation of one page, where `suc n` pages are free from `r` on.
pub record One (f : Frames) (r n : ℕ) : Type 0 where
  pub after : Frames
  pub page : ℕ
  pub took : physical_page_alloc f 1 ≡ (after, page * pagesize)
  pub below : page < page_count f
  pub was_free : isset f.bitmap page ≡ false
  pub used : isset after.bitmap page ≡ true
  pub later : Later f after
  pub fits : r + 1 + n ≤ page_count after
  pub run : FreeRun after.bitmap (r + 1) n

pub alloc-One :
    (f : Frames) (r n : ℕ)
    → f.total_detected_memory < 2 ^ 64
    → r + suc n ≤ page_count f
    → FreeRun f.bitmap r (suc n)
    → One f r n
alloc-One f r n w fits run =
    let t = alloc-Takes f 1 r (omega arith) w (omega arith) (λ j lo hi. run j lo (omega arith)) in
    record {
      after = (physical_page_alloc f 1).0;
      page = t.page;
      took = ground (arith, t.at);
      below = omega (arith, t.fits);
      was_free = t.was_free t.page (omega arith) (omega arith);
      used = Takes-used t t.page (omega arith) (omega arith);
      later = Takes-Later t;
      fits = omega (arith, t.same_size);
      run = Takes-rest t n (λ j lo hi. run j lo (omega arith));
    }
