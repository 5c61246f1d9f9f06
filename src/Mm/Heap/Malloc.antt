-- ===== src/Mm/Heap/Malloc.antt =====
-- What `kmalloc` answers on every path.
use seaweed.Base.{
  ℕ, zero, suc, ◌+◌, ◌*◌, ◌/◌, ◌^◌, ◌<◌, ◌≤◌, ◌≡◌, ◌≢◌, refl, arith, ◌==◌, if◌then◌else◌, true,
  false,
}
use seaweed.Base.{Bool-cases, inl, inr, ◌⊎◌, Option, none, some}
use seaweed.Base.{u16, u64, update}
use seaweed.Libk.Bitmap.{isset}
use seaweed.Mm.Layout.{high_vma, roundup}
use seaweed.Mm.Run.Laws.{
  within, FreeRun, FirstRun, FirstFree, first_free-FirstFree, search-FirstRun_all, isset-set_range,
}
use seaweed.Mm.Heap.{
  Heap, Allocation, Pointer, null, fault, at, blocksize, free_entry, first_free_allocation_slot,
  take_run, take_found, take_from, kmalloc,
}

-- The slot that `firstFreeAllocationSlot` returns is the first empty one.
abbrev pub FirstEmpty : (ℕ → Allocation) → ℕ → ℕ → Option ℕ → Type 0
FirstEmpty table limit i none = (k : ℕ) → i ≤ k → k < limit → (table k).size ≢ 0
FirstEmpty table limit i (some e) =
    (i ≤ e) × (e < limit) × ((table e).size ≡ 0) × ((k : ℕ) → i ≤ k → k < e → (table k).size ≢ 0)

FirstEmpty-skip :
    (table : ℕ → Allocation) (limit i : ℕ) (r : Option ℕ)
    → (table i).size ≢ 0
    → FirstEmpty table limit (i + 1) r
    → FirstEmpty table limit i r
FirstEmpty-skip table limit i none used h = λ k lo hi. elim (Bool-cases (i == k)) [
  | inl same ↦ let e : k ≡ i = ground arith in rw e used
  | inr ne ↦ h k (ground arith) hi
]
FirstEmpty-skip table limit i (some e) used (lo, hi, empty, before) = (
  omega arith,
  hi,
  empty,
  λ k from below. elim (Bool-cases (i == k)) [
    | inl same ↦ let e : k ≡ i = ground arith in rw e used
    | inr ne ↦ before k (ground arith) below
  ],
)

free_entry-FirstEmpty :
    (table : ℕ → Allocation) (limit left i : ℕ)
    → i + left ≡ limit
    → FirstEmpty table limit i (free_entry table left i)
unfolding free_entry
free_entry-FirstEmpty table limit zero i e = λ k lo hi. absurd (omega arith)
free_entry-FirstEmpty table limit (suc left) i e = elim (Bool-cases ((table i).size == 0)) [
  | inl empty ↦ rw empty (omega arith, omega arith, ground arith, λ k lo hi. absurd (omega arith))
  | inr used ↦ rw used (
      FirstEmpty-skip table limit i _ (ground arith)
        (free_entry-FirstEmpty table limit left (i + 1) (omega arith)))
]

pub first_free_allocation_slot-FirstEmpty :
    (h : Heap)
    → FirstEmpty h.allocation_bitmap h.allocation_bitmap_size 0 (first_free_allocation_slot h)
unfolding first_free_allocation_slot
first_free_allocation_slot-FirstEmpty h =
    free_entry-FirstEmpty h.allocation_bitmap h.allocation_bitmap_size h.allocation_bitmap_size 0
      (omega arith)

-- A run of `count` free blocks below the end of the heap.
abbrev pub IsRoom : Heap → ℕ → ℕ → Type 0
IsRoom h count q = (q + count ≤ h.kbitmap_size) × FreeRun h.kbitmap q count

-- The heap `t` is `h` with `count` blocks from `q` on marked and recorded in the first empty slot.
pub record Taken (h : Heap) (count q : ℕ) (t : Heap) : Type 0 where
  pub slot : ℕ
  pub room : IsRoom h count q
  pub least : (q' : ℕ) → IsRoom h count q' → q ≤ q'
  pub slot_in : slot < h.allocation_bitmap_size
  pub slot_empty : (h.allocation_bitmap slot).size ≡ 0
  pub recorded :
      t.allocation_bitmap
      ≡ update h.allocation_bitmap slot (record { block = u16 q; size = u16 count })
  pub marked : (j : ℕ) → isset t.kbitmap j ≡ (if within q count j then true else isset h.kbitmap j)
  pub same_begin : t.k_heap_begin ≡ h.k_heap_begin
  pub same_size : t.kbitmap_size ≡ h.kbitmap_size
  pub same_slots : t.allocation_bitmap_size ≡ h.allocation_bitmap_size

-- What the caller sees. NULL: some block is free, but no run is long enough. A fault: every block is
-- taken, or every slot of the table is. Both leave the heap as it was.
abbrev pub Answer : Heap → ℕ → Heap × Pointer → Type 0
Answer h count (t, null) =
    (t ≡ h)
    × ((q : ℕ) → ¬ IsRoom h count q)
    × ((f : ℕ) × (f < h.kbitmap_size) × (isset h.kbitmap f ≡ false))
Answer h count (t, fault) =
    (t ≡ h)
    × (((j : ℕ) → j < h.kbitmap_size → isset h.kbitmap j ≡ true)
        ⊎ ((k : ℕ) → k < h.allocation_bitmap_size → (h.allocation_bitmap k).size ≢ 0))
Answer h count (t, at addr) =
    (q : ℕ) × (addr ≡ u64 (u64 (q * blocksize + h.k_heap_begin) + high_vma)) × Taken h count q t

take_run-Answer :
    (h : Heap) (count base : ℕ) (slot : Option ℕ)
    → FirstRun h.kbitmap blocksize count h.kbitmap_size 0 (some base)
    → FirstEmpty h.allocation_bitmap h.allocation_bitmap_size 0 slot
    → Answer h count (take_run h count base slot)
unfolding take_run
take_run-Answer h count base none run full = (refl, inr (λ k below. full k (omega arith) below))
take_run-Answer h count base (some slot) (q, start, _, fits, run, least) (_, below, empty, _) =
    let block : base / 32 ≡ q = omega arith in
    (
      q,
      rw start refl,
      record {
        slot = slot;
        room = (fits, run);
        least = λ q' room. least q' (omega arith) room.0 room.1;
        slot_in = below;
        slot_empty = empty;
        recorded = rw block refl;
        marked = λ j. rw block (isset-set_range h.kbitmap q count j);
        same_begin = refl;
        same_size = refl;
        same_slots = refl;
      },
    )

take_found-Answer :
    (h : Heap) (count f : ℕ) (r : Option ℕ)
    → f < h.kbitmap_size
    → isset h.kbitmap f ≡ false
    → FirstRun h.kbitmap blocksize count h.kbitmap_size 0 r
    → Answer h count (take_found h count r)
unfolding take_found
take_found-Answer h count f none below free none_left =
    (refl, λ q room. none_left q (omega arith) room.0 room.1, (f, below, free))
take_found-Answer h count f (some base) below free run =
    take_run-Answer h count base (first_free_allocation_slot h) run
      (first_free_allocation_slot-FirstEmpty h)

take_from-Answer :
    (h : Heap) (count : ℕ) (f : Option ℕ)
    → 0 < count
    → h.kbitmap_size * blocksize < 2 ^ 64
    → FirstFree h.kbitmap h.kbitmap_size 0 f
    → Answer h count (take_from h count f)
unfolding take_from
take_from-Answer h count none pos w full = (refl, inl (λ j below. full j (omega arith) below))
take_from-Answer h count (some f) pos w first =
    let start : u64 (f * blocksize) ≡ f * blocksize = omega arith in
    rw start (
      take_found-Answer h count f _ first.1 first.2
        (search-FirstRun_all h.kbitmap blocksize count h.kbitmap_size f pos w first))

-- On every path of `kmalloc` for a size of 1 to 2^64 - 32: an address is that of the lowest run of
-- enough free blocks, which are then marked and recorded in an empty slot of the table; NULL means
-- that some block is free but no run is long enough; an access out of bounds happens only where
-- every block, or every slot, is taken. NULL and a fault leave the heap as it was.
pub kmalloc-Answer :
    (h : Heap) (size : ℕ)
    → 0 < size
    → size + 31 < 2 ^ 64
    → h.kbitmap_size * blocksize < 2 ^ 64
    → Answer h (roundup size 32) (kmalloc h size)
unfolding kmalloc
kmalloc-Answer h size pos w fits =
    take_from-Answer h (roundup size 32) _ (omega arith) fits
      (first_free-FirstFree h.kbitmap h.kbitmap_size h.kbitmap_size 0 (omega arith))
