-- ===== src/Mm/Paging/Space/Pages.antt =====
-- What a new space's allocations take, when a long enough run of pages is free.
use seaweed.Base.{ℕ, ◌+◌, ◌*◌, ◌^◌, ◌<◌, ◌≤◌, ◌≡◌, ◌≢◌, arith, true, false}
use seaweed.Base.{}
use seaweed.Libk.Bitmap.{isset}
use seaweed.Mm.Layout.{pagesize}
use seaweed.Mm.Run.Laws.{FreeRun}
use seaweed.Mm.Frames.{Frames, page_count, physical_page_alloc}
use seaweed.Mm.Paging.Space.Taken.{
  Takes, alloc-Takes, Later, Later-trans, Later-free, differ, Takes-Later, Takes-used, Takes-rest,
  One, alloc-One,
}

-- The pages of a new space of 4 KiB pages: four tables, and `size` pages from `base` on. All of them
-- were free and are in use, and `n` pages behind the run are free still.
pub record SpacePages (f : Frames) (size r n : ℕ) : Type 0 where
  pub f1 : Frames
  pub f2 : Frames
  pub f3 : Frames
  pub f4 : Frames
  pub f5 : Frames
  pub p4 : ℕ
  pub p3 : ℕ
  pub p2 : ℕ
  pub p1 : ℕ
  pub base : ℕ
  pub took4 : physical_page_alloc f 1 ≡ (f1, p4 * pagesize)
  pub took3 : physical_page_alloc f1 1 ≡ (f2, p3 * pagesize)
  pub took2 : physical_page_alloc f2 1 ≡ (f3, p2 * pagesize)
  pub took1 : physical_page_alloc f3 1 ≡ (f4, p1 * pagesize)
  pub took : physical_page_alloc f4 size ≡ (f5, base * pagesize)
  pub ne43 : p4 ≢ p3
  pub ne42 : p4 ≢ p2
  pub ne41 : p4 ≢ p1
  pub ne32 : p3 ≢ p2
  pub ne31 : p3 ≢ p1
  pub ne21 : p2 ≢ p1
  pub free4 : isset f.bitmap p4 ≡ false
  pub free3 : isset f.bitmap p3 ≡ false
  pub free2 : isset f.bitmap p2 ≡ false
  pub free1 : isset f.bitmap p1 ≡ false
  pub used4 : isset f5.bitmap p4 ≡ true
  pub used3 : isset f5.bitmap p3 ≡ true
  pub used2 : isset f5.bitmap p2 ≡ true
  pub used1 : isset f5.bitmap p1 ≡ true
  pub below4 : p4 < page_count f
  pub below3 : p3 < page_count f
  pub below2 : p2 < page_count f
  pub below1 : p1 < page_count f
  pub below : base + size ≤ page_count f
  pub free_pages : FreeRun f.bitmap base size
  pub used_pages : (j : ℕ) → base ≤ j → j < base + size → isset f5.bitmap j ≡ true
  pub later : Later f f5
  pub fits : r + (size + 4) + n ≤ page_count f5
  pub run : FreeRun f5.bitmap (r + (size + 4)) n

module _ (f : Frames) (size r n : ℕ) (o4 : One f r (size + 3 + n))
    (o3 : One o4.after (r + 1) (size + 2 + n)) where
  later2 : Later f o3.after
  later2 = Later-trans o4.later o3.later

  module _ (o2 : One o3.after (r + 1 + 1) (size + 1 + n))
      (o1 : One o2.after (r + 1 + 1 + 1) (size + n)) where
    later3 : Later f o2.after
    later3 = Later-trans later2 o2.later

    later4 : Later f o1.after
    later4 = Later-trans later3 o1.later

    module _ (t : Takes o1.after size (r + 1 + 1 + 1 + 1) (physical_page_alloc o1.after size)) where
      abbrev last : Frames
      last = (physical_page_alloc o1.after size).0

      later5 : Later o1.after last
      later5 = Takes-Later t

      kept1 : (j : ℕ) → isset o2.after.bitmap j ≡ true → isset last.bitmap j ≡ true
      kept1 j u = later5.keeps j (o1.later.keeps j u)

      kept2 : (j : ℕ) → isset o3.after.bitmap j ≡ true → isset last.bitmap j ≡ true
      kept2 j u = kept1 j (o2.later.keeps j u)

      pages_of : SpacePages f size r n
      pages_of = record {
        f1 = o4.after;
        f2 = o3.after;
        f3 = o2.after;
        f4 = o1.after;
        f5 = last;
        p4 = o4.page;
        p3 = o3.page;
        p2 = o2.page;
        p1 = o1.page;
        base = t.page;
        took4 = o4.took;
        took3 = o3.took;
        took2 = o2.took;
        took1 = o1.took;
        took = ground (arith, t.at);
        ne43 = differ o4.after o4.page o3.page o4.used o3.was_free;
        ne42 = differ o3.after o4.page o2.page (o3.later.keeps o4.page o4.used) o2.was_free;
        ne41 =
            differ o2.after o4.page o1.page
              (o2.later.keeps o4.page (o3.later.keeps o4.page o4.used)) o1.was_free;
        ne32 = differ o3.after o3.page o2.page o3.used o2.was_free;
        ne31 = differ o2.after o3.page o1.page (o2.later.keeps o3.page o3.used) o1.was_free;
        ne21 = differ o2.after o2.page o1.page o2.used o1.was_free;
        free4 = o4.was_free;
        free3 = Later-free o3.page o4.later o3.was_free;
        free2 = Later-free o2.page later2 o2.was_free;
        free1 = Later-free o1.page later3 o1.was_free;
        used4 = kept2 o4.page (o3.later.keeps o4.page o4.used);
        used3 = kept2 o3.page o3.used;
        used2 = kept1 o2.page o2.used;
        used1 = later5.keeps o1.page o1.used;
        below4 = o4.below;
        below3 = omega (arith, o3.below, o4.later.same_size);
        below2 = omega (arith, o2.below, later2.same_size);
        below1 = omega (arith, o1.below, later3.same_size);
        below = omega (arith, t.fits, later4.same_size);
        free_pages = λ j lo hi. Later-free j later4 (t.was_free j lo hi);
        used_pages = Takes-used t;
        later = Later-trans later4 later5;
        fits = omega (arith, o1.fits, later5.same_size);
        run = λ j lo hi.
            Takes-rest t n (λ i a b. o1.run i a (omega arith)) j (omega arith) (omega arith);
      }

    pages_of_four : 0 < size → f.total_detected_memory < 2 ^ 64 → SpacePages f size r n
    pages_of_four pos w = pages_of (
        alloc-Takes o1.after size (r + 1 + 1 + 1 + 1) pos (omega (arith, later4.same_size))
          (omega (arith, o1.fits)) (λ j lo hi. o1.run j lo (omega arith)))

  pages_of_two : 0 < size → f.total_detected_memory < 2 ^ 64 → SpacePages f size r n
  pages_of_two pos w =
      let o2 =
        alloc-One o3.after (r + 1 + 1) (size + 1 + n) (omega (arith, later2.same_size))
          (omega (arith, o3.fits)) (λ j lo hi. o3.run j lo (omega arith)) in
      let o1 =
        alloc-One o2.after (r + 1 + 1 + 1) (size + n)
          (omega (arith, o2.later.same_size, later2.same_size)) (omega (arith, o2.fits))
          (λ j lo hi. o2.run j lo (omega arith)) in
      pages_of_four o2 o1 pos w

-- Where a run of four pages more than the space has, and `n` behind them, is free.
pub alloc-SpacePages :
    (f : Frames) (size r n : ℕ)
    → 0 < size
    → f.total_detected_memory < 2 ^ 64
    → r + (size + 4) + n ≤ page_count f
    → FreeRun f.bitmap r (size + 4 + n)
    → SpacePages f size r n
alloc-SpacePages f size r n pos w fits run =
    let o4 = alloc-One f r (size + 3 + n) w (omega arith) (λ j lo hi. run j lo (omega arith)) in
    let o3 =
      alloc-One o4.after (r + 1) (size + 2 + n) (omega (arith, o4.later.same_size))
        (omega (arith, o4.fits)) (λ j lo hi. o4.run j lo (omega arith)) in
    pages_of_two f size r n o4 o3 pos w
