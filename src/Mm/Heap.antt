-- ===== src/Mm/Heap.antt =====
-- kernel/mm/kHeap.c: a heap of 32-byte blocks, one bit for each, and a table of the allocations.
pub mod Malloc
pub mod Invariant
pub mod Release
pub mod Roundtrip
use seaweed.Base.{
  ℕ, zero, suc, ◌+◌, ◌-◌, ◌*◌, ◌/◌, ◌==◌, if◌then◌else◌, ltb, Option, none, some, u16, u64, update,
  ◌^◌,
}
use seaweed.Libk.Bitmap.{Bytes}
use seaweed.Libk.Memory.{Cells, memcpy64}
use seaweed.Mm.Layout.{high_vma, roundup}
use seaweed.Mm.Run.{first_free, search, set_range, clear_range}
use seaweed.Mm.Frames.{Frames, physical_page_alloc}

abbrev pub blocksize : ℕ
blocksize = 32

-- `allocation_t`, two `uint16_t`.
pub record Allocation : Type 0 where
  pub block : ℕ
  pub size : ℕ

-- The globals of the file, and the contents of the two tables.
pub record Heap : Type 0 where
  pub k_heap_begin : ℕ
  pub kbitmap : Bytes
  pub kbitmap_size : ℕ
  pub allocation_bitmap : ℕ → Allocation
  pub allocation_bitmap_size : ℕ

abbrev pub no_allocation : Allocation
no_allocation = record { block = 0; size = 0 }

-- The two tables are zeroed as far as the pages go that were allocated for them; behind those lies
-- what was there before. The addresses of the tables are returned beside the heap.
unfoldable pub k_heap_init : Frames → Bytes → (ℕ → Allocation) → Frames × Heap × ℕ × ℕ
k_heap_init s bits entries =
    let (s1, begin) = physical_page_alloc s 0x100 in
    let (s2, bitmap_at) = physical_page_alloc s1 1 in
    let (s3, table_at) = physical_page_alloc s2 16 in
    (
      s3,
      record {
        k_heap_begin = begin;
        kbitmap = λ a. if ltb a 0x1000 then 0 else bits a;
        kbitmap_size = 0x100000 / blocksize;
        allocation_bitmap = λ i. if ltb (i * 4) 0x10000 then no_allocation else entries i;
        allocation_bitmap_size = 0x100000 / 4;
      },
      u64 (bitmap_at + high_vma),
      u64 (table_at + high_vma),
    )

-- `none` is the -1 of the source.
unfoldable pub first_free_slot : Heap → Option ℕ
first_free_slot h = first_free h.kbitmap h.kbitmap_size 0

unfoldable pub free_entry : (ℕ → Allocation) → ℕ → ℕ → Option ℕ
free_entry table zero i = none
free_entry table (suc left) i =
    let rest = free_entry table left (i + 1) in if (table i).size == 0 then some i else rest

unfoldable pub first_free_allocation_slot : Heap → Option ℕ
first_free_allocation_slot h = free_entry h.allocation_bitmap h.allocation_bitmap_size 0

-- `null` is NULL. `fault` is an access at index -1, far outside of the table: of the bitmap, where
-- it has no clear bit, or of the allocations, where each entry is in use.
pub data Pointer : Type 0 where
  null fault : Pointer
  at : ℕ → Pointer

-- The run at `base` is recorded in the table and marked.
unfoldable pub take_run : Heap → ℕ → ℕ → Option ℕ → Heap × Pointer
take_run h count base none = (h, fault)
take_run h count base (some slot) = (
  record h {
    allocation_bitmap =
        update h.allocation_bitmap slot (record { block = u16 (base / 32); size = u16 count });
    kbitmap = set_range h.kbitmap (base / blocksize) count;
  },
  at (u64 (u64 (base + h.k_heap_begin) + high_vma)),
)

unfoldable pub take_found : Heap → ℕ → Option ℕ → Heap × Pointer
unfolding take_run first_free_allocation_slot
take_found h count none = (h, null)
take_found h count (some base) = take_run h count base (first_free_allocation_slot h)

unfoldable pub take_from : Heap → ℕ → Option ℕ → Heap × Pointer
unfolding take_found
take_from h count none = (h, fault)
take_from h count (some first) =
    take_found h count
      (search h.kbitmap blocksize count (h.kbitmap_size - first) first 0 (u64 (first * blocksize)))

unfoldable pub kmalloc : Heap → ℕ → Heap × Pointer
unfolding take_from first_free_slot
kmalloc h size = take_from h (roundup size 32) (first_free_slot h)

-- The index where the loop of `kfree` stops: the first entry of that block, or the table's size.
unfoldable pub find_entry : (ℕ → Allocation) → ℕ → ℕ → ℕ → ℕ
find_entry table block zero i = i
find_entry table block (suc left) i =
    let rest = find_entry table block left (i + 1) in if (table i).block == block then i else rest

-- `addr - HIGH_VMA - kHeapBegin` in blocks, on words.
unfoldable pub block_of : Heap → ℕ → ℕ
block_of h addr = u64 (u64 (addr + 2 ^ 64 - high_vma) + 2 ^ 64 - h.k_heap_begin) / 32

unfoldable pub kfree : Heap → ℕ → Heap × ℕ
unfolding block_of
kfree h addr =
    let base = block_of h addr in
    let i = find_entry h.allocation_bitmap base h.allocation_bitmap_size 0 in
    let size = (h.allocation_bitmap i).size in
    (
      record h {
        kbitmap = clear_range h.kbitmap base size;
        allocation_bitmap = update h.allocation_bitmap i no_allocation;
      },
      size,
    )

-- The address that a pointer holds; NULL is 0.
unfoldable pub address : Pointer → ℕ
address null = 0
address fault = 0
address (at a) = a

-- The copy counts blocks where `memcpy64` counts 64-bit cells. A fault in `kmalloc` ends the run.
unfoldable pub move_to : Heap × Pointer → Cells → ℕ → ℕ → Heap × Cells × Pointer
unfolding address
move_to (h, null) m addr count = (h, memcpy64 m (address null / 8) (addr / 8) count, null)
move_to (h, fault) m addr count = (h, m, fault)
move_to (h, at a) m addr count = (h, memcpy64 m (address (at a) / 8) (addr / 8) count, at a)

unfoldable pub krealloc : Heap → Cells → ℕ → ℕ → Heap × Cells × Pointer
unfolding move_to
krealloc h m addr size =
    let (freed, count) = kfree h addr in move_to (kmalloc freed (u64 (count + size))) m addr count
