-- ===== src/Mm/Heap/Release.antt =====
-- `kfree` and `krealloc` on a heap whose table and bitmap agree.
use seaweed.Base.{
  ℕ, zero, suc, ◌+◌, ◌*◌, ◌^◌, ◌<◌, ◌≤◌, ◌≡◌, ◌≢◌, refl, arith, ◌==◌, if◌then◌else◌, false, leb,
  leb→le,
}
use seaweed.Base.{Bool-cases, inl, inr, sym, ap, ◌∙◌}
use seaweed.Base.{u64, update}
use seaweed.Libk.Bitmap.{isset}
use seaweed.Mm.Layout.{high_vma}
use seaweed.Mm.Run.Laws.{within, isset-clear_range}
use seaweed.Mm.Heap.{Heap, Allocation, no_allocation, blocksize, find_entry, block_of, kfree}
use seaweed.Mm.Heap.Invariant.{IsConsistent}

-- Where the loop of `kfree` stops: at the first entry of that block, or behind the table.
pub record Stops (table : ℕ → Allocation) (block limit i r : ℕ) : Type 0 where
  pub from : i ≤ r
  pub below : r ≤ limit
  pub hit : r < limit → (table r).block ≡ block
  pub first : (k : ℕ) → i ≤ k → k < r → (table k).block ≢ block

find_entry-Stops :
    (table : ℕ → Allocation) (block limit left i : ℕ)
    → i + left ≡ limit
    → Stops table block limit i (find_entry table block left i)
unfolding find_entry
find_entry-Stops table block limit zero i e = record {
  from = omega arith;
  below = omega arith;
  hit = λ lt. absurd (omega arith);
  first = λ k lo hi. absurd (omega arith);
}
find_entry-Stops table block limit (suc left) i e = elim (Bool-cases ((table i).block == block)) [
  | inl same ↦ rw same (record {
    from = omega arith;
    below = omega arith;
    hit = λ _. ground arith;
    first = λ k lo hi. absurd (omega arith);
  })
  | inr other ↦
      let rest = find_entry-Stops table block limit left (i + 1) (omega arith) in
      rw other (record {
        from = omega (arith, rest.from);
        below = rest.below;
        hit = rest.hit;
        first = λ k lo hi. elim (Bool-cases (i == k)) [
          | inl here ↦ let at_i : k ≡ i = ground arith in rw at_i (ground arith)
          | inr later ↦ rest.first k (ground arith) hi
        ];
      })
]

-- The heap lies in the part of memory that HIGH_VMA maps without a wrap.
abbrev pub IsMapped : Heap → Type 0
IsMapped h = h.k_heap_begin + h.kbitmap_size * blocksize ≤ 2 ^ 47

-- The address that `kmalloc` returned for the run at block `q`.
abbrev pub address_of : Heap → ℕ → ℕ
address_of h q = u64 (u64 (q * blocksize + h.k_heap_begin) + high_vma)

block_of-address_of :
    (h : Heap) (q : ℕ) → IsMapped h → q ≤ h.kbitmap_size → block_of h (address_of h q) ≡ q
unfolding block_of
block_of-address_of h q low inside = omega arith

module _ (h : Heap) (slot : ℕ) (c : IsConsistent h) (low : IsMapped h)
    (below : slot < h.allocation_bitmap_size) (live : 0 < (h.allocation_bitmap slot).size) where
  abbrev block : ℕ
  block = (h.allocation_bitmap slot).block

  abbrev size : ℕ
  size = (h.allocation_bitmap slot).size

  abbrev stop : ℕ
  stop = find_entry h.allocation_bitmap block h.allocation_bitmap_size 0

  stops : Stops h.allocation_bitmap block h.allocation_bitmap_size 0 stop
  stops =
      find_entry-Stops h.allocation_bitmap block h.allocation_bitmap_size h.allocation_bitmap_size 0
        (omega arith)

  stop-le : stop ≤ slot
  stop-le = elim (Bool-cases (leb stop slot)) [
    | inl le ↦ leb→le _ _ le
    | inr gt ↦ absurd (stops.first slot (omega arith) (ground arith) refl)
  ]

  -- An entry in use that starts at the same block is the entry itself.
  stop-eq : 0 < (h.allocation_bitmap stop).size → stop ≡ slot
  stop-eq used =
      let same = stops.hit (omega (arith, stop-le)) in
      c.apart stop slot block (omega (arith, stop-le)) below (ground arith) (ground arith)

  kfree_bits :
      (j : ℕ)
      → isset (kfree h (address_of h block)).0.kbitmap j
        ≡ (if within block (h.allocation_bitmap stop).size j then false else isset h.kbitmap j)
  unfolding kfree
  kfree_bits j =
      let found : block_of h (address_of h block) ≡ block =
        block_of-address_of h block low (omega (arith, c.inside slot below)) in
      rw found (isset-clear_range h.kbitmap block (h.allocation_bitmap stop).size j)

  kfree_rest :
      ((kfree h (address_of h block)).1 ≡ (h.allocation_bitmap stop).size)
      × ((kfree h (address_of h block)).0.allocation_bitmap
          ≡ update h.allocation_bitmap stop no_allocation)
      × ((kfree h (address_of h block)).0.kbitmap_size ≡ h.kbitmap_size)
      × ((kfree h (address_of h block)).0.allocation_bitmap_size ≡ h.allocation_bitmap_size)
  unfolding kfree
  kfree_rest =
      let found : block_of h (address_of h block) ≡ block =
        block_of-address_of h block low (omega (arith, c.inside slot below)) in
      rw found (refl, refl, refl, refl)

  -- An empty entry has block 0, so for another block the loop stops at the entry itself.
  stop_used : block ≢ 0 → stop ≡ slot
  stop_used ne = elim (Bool-cases ((h.allocation_bitmap stop).size == 0)) [
    | inl zero_size ↦ absurd (
        ne (
          sym (stops.hit (omega (arith, stop-le)))
          ∙ c.empty_zero stop (omega (arith, stop-le)) (ground arith)))
    | inr used ↦ stop-eq (ground arith)
  ]

-- The heap `t` is `h` without the allocation of one entry.
pub record Freed (h : Heap) (slot : ℕ) (t : Heap) : Type 0 where
  bits :
      (j : ℕ)
      → isset t.kbitmap j ≡ (
          if within (h.allocation_bitmap slot).block (h.allocation_bitmap slot).size j
          then false
          else isset h.kbitmap j)
  table : t.allocation_bitmap ≡ update h.allocation_bitmap slot no_allocation
  same_size : t.kbitmap_size ≡ h.kbitmap_size
  same_slots : t.allocation_bitmap_size ≡ h.allocation_bitmap_size

module _ {h t : Heap} {slot : ℕ} (c : IsConsistent h) (below : slot < h.allocation_bitmap_size)
    (freed : Freed h slot t) where
  entries :
      (k : ℕ) → t.allocation_bitmap k ≡ (if k == slot then no_allocation else h.allocation_bitmap k)
  entries k = rw freed.table refl

  Freed-IsConsistent : IsConsistent t
  Freed-IsConsistent = record {
    empty_zero = λ k lt zero_size. ground (arith, entries k, freed.same_slots, c.empty_zero k);
    inside = λ k lt. ground (arith, entries k, freed.same_slots, freed.same_size, c.inside k);
    marked = λ k j lt covered.
        ground (arith, entries k, freed.same_slots, freed.bits j, c.marked k j, c.apart k slot j);
    apart = λ k l j lt lt' one two.
        ground (arith, entries k, entries l, freed.same_slots, c.apart k l j);
  }

kfree-Freed :
    (h : Heap) (slot : ℕ)
    → IsConsistent h
    → IsMapped h
    → slot < h.allocation_bitmap_size
    → 0 < (h.allocation_bitmap slot).size
    → (h.allocation_bitmap slot).block ≢ 0
    → let (t, freed) = kfree h (address_of h (h.allocation_bitmap slot).block) in
      (freed ≡ (h.allocation_bitmap slot).size) × Freed h slot t
kfree-Freed h slot c low below live ne =
    let here = stop_used h slot c low below live ne in
    let rest = kfree_rest h slot c low below live in
    (
      rest.0 ∙ rw here refl,
      record {
        bits = λ j. kfree_bits h slot c low below live j ∙ rw here refl;
        table = rest.1 ∙ rw here refl;
        same_size = rest.2;
        same_slots = rest.3;
      },
    )

-- Freeing a live allocation that does not start at block 0 returns its size in blocks, clears
-- exactly its bits, empties its entry and no other, and keeps the heap consistent.
pub kfree_live :
    (h : Heap) (slot : ℕ)
    → IsConsistent h
    → IsMapped h
    → slot < h.allocation_bitmap_size
    → 0 < (h.allocation_bitmap slot).size
    → (h.allocation_bitmap slot).block ≢ 0
    → let e = h.allocation_bitmap slot in
      let (t, freed) = kfree h (address_of h e.block) in
      (freed ≡ e.size)
      × ((j : ℕ)
          → isset t.kbitmap j ≡ (if within e.block e.size j then false else isset h.kbitmap j))
      × (t.allocation_bitmap ≡ update h.allocation_bitmap slot no_allocation)
      × IsConsistent t
kfree_live h slot c low below live ne =
    let done = kfree-Freed h slot c low below live ne in
    (done.0, done.1.bits, done.1.table, Freed-IsConsistent c below done.1)

-- Where an entry before that of block 0 is empty, freeing the allocation at block 0 finds the empty
-- entry instead: it returns 0, clears no bit and leaves the allocation's entry in the table.
kfree_block_zero :
    (h : Heap) (slot empty : ℕ)
    → IsConsistent h
    → IsMapped h
    → slot < h.allocation_bitmap_size
    → 0 < (h.allocation_bitmap slot).size
    → (h.allocation_bitmap slot).block ≡ 0
    → empty < slot
    → (h.allocation_bitmap empty).size ≡ 0
    → let (t, freed) = kfree h (address_of h (h.allocation_bitmap slot).block) in
      (freed ≡ 0)
      × ((j : ℕ) → isset t.kbitmap j ≡ isset h.kbitmap j)
      × (t.allocation_bitmap slot ≡ h.allocation_bitmap slot)
kfree_block_zero h slot empty c low below live at_zero before none_there =
    let zero_there = c.empty_zero empty (omega arith) none_there in
    let found = stops h slot c low below live in
    let early : stop h slot c low below live ≤ empty =
      elim (Bool-cases (leb (stop h slot c low below live) empty)) [
        | inl le ↦ leb→le _ _ le
        | inr gt ↦
            absurd (found.first empty (omega arith) (ground arith) (zero_there ∙ sym at_zero))
      ] in
    let none_taken : (h.allocation_bitmap (stop h slot c low below live)).size ≡ 0 =
      elim (Bool-cases ((h.allocation_bitmap (stop h slot c low below live)).size == 0)) [
        | inl e ↦ ground arith
        | inr used ↦ absurd (omega (arith, stop-eq h slot c low below live (ground arith)))
      ] in
    let rest = kfree_rest h slot c low below live in
    (
      rest.0 ∙ none_taken,
      λ j. kfree_bits h slot c low below live j ∙ rw none_taken (ground arith),
      ap (λ f. f slot) rest.1 ∙ ground arith,
    )
