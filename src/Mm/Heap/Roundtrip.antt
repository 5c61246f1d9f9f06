-- ===== src/Mm/Heap/Roundtrip.antt =====
-- `kfree` after `kmalloc`, and `krealloc`.
use seaweed.Base.{
  ℕ, ◌+◌, ◌-◌, ◌/◌, ◌^◌, ◌<◌, ◌≤◌, ◌≡◌, ◌≢◌, refl, arith, if◌then◌else◌, true, ltb, leb,
}
use seaweed.Base.{◌⊎◌, ◌&&◌, sym, ap, ◌∙◌}
use seaweed.Base.{}
use mathlib.Core.Bool.{false≢true}
use seaweed.Libk.Bitmap.{isset}
use seaweed.Libk.Memory.{Cells}
use seaweed.Libk.Memory.Laws.{memcpy64_cells}
use seaweed.Mm.Layout.{roundup}
use seaweed.Mm.Heap.{Heap, Allocation, Pointer, null, fault, at, kmalloc, kfree, krealloc, move_to}
use seaweed.Mm.Heap.Malloc.{Answer, Taken, kmalloc-Answer}
use seaweed.Mm.Heap.Invariant.{IsConsistent, kmalloc-IsConsistent, Taken-entry}
use seaweed.Mm.Heap.Release.{IsMapped, address_of, kfree_live}

kfree-Taken :
    (h t : Heap) (count q j : ℕ)
    → 0 < count
    → h.kbitmap_size < 2 ^ 16
    → IsMapped h
    → isset h.kbitmap 0 ≡ true
    → IsConsistent t
    → Taken h count q t
    → let (u, freed) = kfree t (address_of h q) in
      (freed ≡ count) × (isset u.kbitmap j ≡ isset h.kbitmap j)
kfree-Taken h t count q j pos small low zero_taken c taken =
    let entry : t.allocation_bitmap taken.slot ≡ record { block = q; size = count } =
      Taken-entry taken.slot small taken ∙ ground arith in
    let not_zero : q ≢ 0 =
      λ e. false≢true (sym (taken.room.1 0 (omega arith) (omega arith)) ∙ zero_taken) in
    let done =
      kfree_live t taken.slot c (rw (taken.same_begin, taken.same_size) low)
        (rw taken.same_slots taken.slot_in) (rw entry pos) (rw entry not_zero) in
    let there : address_of t (t.allocation_bitmap taken.slot).block ≡ address_of h q =
      rw (entry, taken.same_begin) refl in
    rw (← there) (
      done.0 ∙ ap (λ (e : Allocation). e.size) entry,
      done.1 j ∙ rw entry (ground (arith, taken.marked j, taken.room.1 j)),
    )

kfree-Answer :
    (h : Heap) (count addr : ℕ) (r : Heap × Pointer) (j : ℕ)
    → 0 < count
    → h.kbitmap_size < 2 ^ 16
    → IsMapped h
    → isset h.kbitmap 0 ≡ true
    → IsConsistent r.0
    → Answer h count r
    → r.1 ≡ at addr
    → let (u, freed) = kfree r.0 addr in (freed ≡ count) × (isset u.kbitmap j ≡ isset h.kbitmap j)
kfree-Answer h count addr (t, null) j pos small low zero_taken c answer e = absurd (cc)
kfree-Answer h count addr (t, fault) j pos small low zero_taken c answer e = absurd (cc)
kfree-Answer h count addr (t, at a) j pos small low zero_taken c (q, place, taken) e =
    let same : addr ≡ address_of h q = ground arith in
    rw same (kfree-Taken h t count q j pos small low zero_taken c taken)

-- Freeing what `kmalloc` returned gives the bitmap back, bit by bit, and returns the allocation's
-- size in blocks, in a consistent heap of fewer than 2^16 blocks whose block 0 was taken before.
pub kfree-kmalloc :
    (h : Heap) (size addr j : ℕ)
    → 0 < size
    → size + 31 < 2 ^ 64
    → h.kbitmap_size < 2 ^ 16
    → IsMapped h
    → IsConsistent h
    → isset h.kbitmap 0 ≡ true
    → (kmalloc h size).1 ≡ at addr
    → let (t, freed) = kfree (kmalloc h size).0 addr in
      (freed ≡ roundup size 32) × (isset t.kbitmap j ≡ isset h.kbitmap j)
kfree-kmalloc h size addr j pos w small low c zero_taken e =
    kfree-Answer h (roundup size 32) addr (kmalloc h size) j (omega arith) small low zero_taken
      (kmalloc-IsConsistent h size pos w small c) (kmalloc-Answer h size pos w (omega arith)) e

move_to_cells :
    (r : Heap × Pointer) (m : Cells) (addr count n b k : ℕ)
    → count ≡ n
    → (move_to r m addr count).2 ≡ at b
    → (b / 8 ≤ addr / 8) ⊎ (addr / 8 + n ≤ b / 8)
    → (move_to r m addr count).1 k
      ≡ (if leb (b / 8) k && ltb k (b / 8 + n) then m (addr / 8 + (k - b / 8)) else m k)
unfolding move_to
move_to_cells (h, null) m addr count n b k e got apart = absurd (cc)
move_to_cells (h, fault) m addr count n b k e got apart = absurd (cc)
move_to_cells (h, at a) m addr count n b k e got apart =
    let same : a ≡ b = ground arith in rw (same, e) (memcpy64_cells m (b / 8) (addr / 8) n k apart)

-- After `krealloc` of a live allocation of `n` blocks, not at block 0, on a consistent heap below 2^47,
-- that got a new address, `n` cells of 64 bits, a quarter of the old contents, stand at the new
-- place, and no other cell of memory has changed, if the new place does not start inside those cells.
pub krealloc_copies :
    (h : Heap) (slot : ℕ) (m : Cells) (size b k : ℕ)
    → IsConsistent h
    → IsMapped h
    → slot < h.allocation_bitmap_size
    → 0 < (h.allocation_bitmap slot).size
    → (h.allocation_bitmap slot).block ≢ 0
    → let e = h.allocation_bitmap slot in
      let addr = address_of h e.block in
      let (t, m', p) = krealloc h m addr size in
      p ≡ at b
      → (b / 8 ≤ addr / 8) ⊎ (addr / 8 + e.size ≤ b / 8)
      → m' k ≡ (if leb (b / 8) k && ltb k (b / 8 + e.size) then m (addr / 8 + (k - b / 8)) else m k)
unfolding krealloc
krealloc_copies h slot m size b k c low below live ne got apart =
    let done = kfree_live h slot c low below live ne in
    move_to_cells _ m (address_of h (h.allocation_bitmap slot).block) _ _ b k done.0 got apart
