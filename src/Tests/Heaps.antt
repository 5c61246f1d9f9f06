-- ===== src/Tests/Heaps.antt =====
-- kernel/mm/kHeap.c on a small heap.
use seaweed.Base.{ℕ, ◌<◌, ◌≡◌, refl, arith, ◌==◌, if◌then◌else◌, true, false}
use seaweed.Base.{inl, sym, ◌∙◌}
use seaweed.Base.{update}
use seaweed.Libk.Bitmap.{isset, set, clear}
use seaweed.Mm.Run.{first_free, search, set_range, clear_range}
use seaweed.Mm.Run.Laws.{within}
use seaweed.Mm.Layout.{roundup}
use seaweed.Mm.Heap.{
  Heap, Allocation, at, null, fault, no_allocation, kmalloc, kfree, krealloc, free_entry,
  find_entry,
}
use seaweed.Mm.Heap.Malloc.{Answer, kmalloc-Answer}
use seaweed.Mm.Heap.Invariant.{IsConsistent, kmalloc-IsConsistent}
use seaweed.Mm.Heap.Release.{kfree_live}
use seaweed.Mm.Heap.Roundtrip.{kfree-kmalloc, krealloc_copies}

-- Sixteen blocks at 1 MiB, of which `b` is the one allocation, in entry `k`; a bit for block 0 is set.
abbrev one_entry : ℕ → ℕ → ℕ → Allocation
one_entry k b i = if i == k then record { block = b; size = 1 } else no_allocation

abbrev heap_of : ℕ → ℕ → ℕ → Heap
heap_of bits k b = record {
  k_heap_begin = 0x100000;
  kbitmap = λ a. if a == 0 then bits else 0;
  kbitmap_size = 16;
  allocation_bitmap = one_entry k b;
  allocation_bitmap_size = 4;
}

-- Block 3 is entry 0; block 0 is taken by nobody's entry.
abbrev small_heap : Heap
small_heap = heap_of 0b1001 0 3

-- Block 0 is entry 1, behind the empty entry 0.
abbrev leaky_heap : Heap
leaky_heap = heap_of 1 1 0

mallocs :
    ((kmalloc small_heap 32).1 ≡ at 0xffff800000100020)
    × ((kmalloc small_heap 65).1 ≡ at 0xffff800000100080)
    × ((kmalloc small_heap 1000).1 ≡ null)
    × ((kmalloc (record small_heap { kbitmap = λ a. 255 }) 8).1 ≡ fault)
unfolding kmalloc first_free search set_range isset set free_entry
mallocs = (refl, refl, refl, refl)

one_block :
    (k b l j : ℕ)
    → within (one_entry k b l).block (one_entry k b l).size j ≡ true
    → (l ≡ k) × (j ≡ b)
one_block k b l j e = ground arith

module _ (bits k b : ℕ) (small : b < 16) (set_bit : isset (heap_of bits k b).kbitmap b ≡ true) where
  heap_of-IsConsistent : IsConsistent (heap_of bits k b)
  heap_of-IsConsistent = record {
    empty_zero = λ l lt e. ground arith;
    inside = λ l lt. ground arith;
    marked = λ l j lt e. rw (one_block k b l j e).1 set_bit;
    apart = λ l m j lt lt' e e'. (one_block k b l j e).0 ∙ sym (one_block k b m j e').0;
  }

small_heap-IsConsistent : IsConsistent small_heap
unfolding isset
small_heap-IsConsistent = heap_of-IsConsistent 0b1001 0 3 (omega arith) refl

leaky_heap-IsConsistent : IsConsistent leaky_heap
unfolding isset
leaky_heap-IsConsistent = heap_of-IsConsistent 1 1 0 (omega arith) refl

kmalloc-Answer_example : Answer small_heap 2 (kmalloc small_heap 64)
kmalloc-Answer_example = kmalloc-Answer small_heap 64 (omega arith) (omega arith) (omega arith)

kmalloc-IsConsistent_example : IsConsistent (kmalloc small_heap 64).0
kmalloc-IsConsistent_example =
    kmalloc-IsConsistent small_heap 64 (omega arith) (omega arith) (omega arith)
      small_heap-IsConsistent

kfree_live_example :
    let (t, freed) = kfree small_heap 0xffff800000100060 in
    (freed ≡ 1)
    × ((j : ℕ) → isset t.kbitmap j ≡ (if within 3 1 j then false else isset small_heap.kbitmap j))
    × (t.allocation_bitmap ≡ update small_heap.allocation_bitmap 0 no_allocation)
    × IsConsistent t
kfree_live_example =
    kfree_live small_heap 0 small_heap-IsConsistent (omega arith) (omega arith) (omega arith)
      (omega arith)

kfree-kmalloc_example :
    let (t, freed) = kfree (kmalloc small_heap 64).0 0xffff800000100020 in
    (freed ≡ roundup 64 32) × (isset t.kbitmap 1 ≡ isset small_heap.kbitmap 1)
unfolding kmalloc first_free search set_range isset set free_entry
kfree-kmalloc_example =
    kfree-kmalloc small_heap 64 0xffff800000100020 1 (omega arith) (omega arith) (omega arith)
      (omega arith) small_heap-IsConsistent refl refl

krealloc_copies_example :
    (krealloc small_heap (λ k. k) 0xffff800000100060 32).1 0x1ffff00000020004 ≡ 0x1ffff0000002000c
unfolding krealloc kfree find_entry clear_range clear kmalloc first_free search set_range isset set
    free_entry
krealloc_copies_example =
    krealloc_copies small_heap 0 (λ k. k) 32 0xffff800000100020 0x1ffff00000020004
      small_heap-IsConsistent (omega arith) (omega arith) (omega arith) (omega arith) refl
      (inl (omega arith))
