-- ===== src/Mm/Heap/Invariant.antt =====
-- The bitmap and the table of the heap agree, and `kmalloc` keeps it so.
use seaweed.Base.{ℕ, ◌+◌, ◌^◌, ◌<◌, ◌≤◌, ◌≡◌, refl, arith, ◌==◌, if◌then◌else◌, Bool, true}
use seaweed.Base.{sym, ◌∙◌}
use seaweed.Base.{u16}
use mathlib.Core.Bool.{false≢true}
use seaweed.Libk.Bitmap.{isset}
use seaweed.Mm.Layout.{roundup}
use seaweed.Mm.Run.Laws.{within}
use seaweed.Mm.Heap.{Heap, Pointer, null, fault, at, kmalloc}
use seaweed.Mm.Heap.Malloc.{Answer, Taken, kmalloc-Answer}

-- The entry `k` of the table covers block `j`.
abbrev pub covers : Heap → ℕ → ℕ → Bool
covers h k j = within (h.allocation_bitmap k).block (h.allocation_bitmap k).size j

-- An empty entry has block 0, as `kfree` leaves it; the blocks of an entry lie in the heap and are
-- marked; no block belongs to two entries.
pub record IsConsistent (h : Heap) : Type 0 where
  pub empty_zero :
      (k : ℕ)
      → k < h.allocation_bitmap_size
      → (h.allocation_bitmap k).size ≡ 0
      → (h.allocation_bitmap k).block ≡ 0
  pub inside :
      (k : ℕ)
      → k < h.allocation_bitmap_size
      → (h.allocation_bitmap k).block + (h.allocation_bitmap k).size ≤ h.kbitmap_size
  pub marked :
      (k j : ℕ) → k < h.allocation_bitmap_size → covers h k j ≡ true → isset h.kbitmap j ≡ true
  pub apart :
      (k l j : ℕ)
      → k < h.allocation_bitmap_size
      → l < h.allocation_bitmap_size
      → covers h k j ≡ true
      → covers h l j ≡ true
      → k ≡ l

-- The new entry fits its two 16-bit fields.
pub Taken-entry :
    {h t : Heap} {count q : ℕ} (k : ℕ)
    → h.kbitmap_size < 2 ^ 16
    → (taken : Taken h count q t)
    → t.allocation_bitmap k
      ≡ (if k == taken.slot then record { block = q; size = count } else h.allocation_bitmap k)
Taken-entry {count = count} {q = q} k small taken =
    let block : u16 q ≡ q = omega (arith, taken.room.0) in
    let size : u16 count ≡ count = omega (arith, taken.room.0) in
    rw taken.recorded (rw (block, size) refl)

module _ {h t : Heap} {count q : ℕ} (c : IsConsistent h) (small : h.kbitmap_size < 2 ^ 16)
    (pos : 0 < count) (taken : Taken h count q t) where
  -- A block of the new run is free before, so no entry covers it.
  not_covered :
      (k j : ℕ) → k < h.allocation_bitmap_size → within q count j ≡ true → covers h k j ≡ true → ⊥
  not_covered k j below new_one old_one =
      false≢true (sym (taken.room.1 j (ground arith) (ground arith)) ∙ c.marked k j below old_one)

  Taken-IsConsistent : IsConsistent t
  Taken-IsConsistent = record {
    empty_zero =
        λ k below zero. ground (arith, Taken-entry k small taken, taken.same_slots, c.empty_zero k);
    inside = λ k below. ground (
      arith,
      Taken-entry k small taken,
      taken.same_slots,
      taken.same_size,
      taken.room.0,
      c.inside k,
    );
    marked = λ k j below covered.
        ground (arith, Taken-entry k small taken, taken.same_slots, taken.marked j, c.marked k j);
    apart = λ k l j below below' one two. ground (
      arith,
      Taken-entry k small taken,
      Taken-entry l small taken,
      taken.same_slots,
      not_covered k j,
      not_covered l j,
      c.apart k l j,
    );
  }

Answer-IsConsistent :
    (h : Heap) (count : ℕ) (r : Heap × Pointer)
    → 0 < count
    → h.kbitmap_size < 2 ^ 16
    → IsConsistent h
    → Answer h count r
    → IsConsistent r.0
Answer-IsConsistent h count (t, null) pos small c (same, _, _) = rw same c
Answer-IsConsistent h count (t, fault) pos small c (same, _) = rw same c
Answer-IsConsistent h count (t, at addr) pos small c (q, _, taken) =
    Taken-IsConsistent c small pos taken

-- `kmalloc` keeps the table and the bitmap consistent, on every path, in a heap of fewer than 2^16
-- blocks.
pub kmalloc-IsConsistent :
    (h : Heap) (size : ℕ)
    → 0 < size
    → size + 31 < 2 ^ 64
    → h.kbitmap_size < 2 ^ 16
    → IsConsistent h
    → IsConsistent (kmalloc h size).0
kmalloc-IsConsistent h size pos w small c =
    Answer-IsConsistent h (roundup size 32) (kmalloc h size) (omega arith) small c
      (kmalloc-Answer h size pos w (omega arith))
