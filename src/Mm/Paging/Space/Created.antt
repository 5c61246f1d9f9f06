-- ===== src/Mm/Paging/Space/Created.antt =====
-- A new address space, from the call to the translation of its addresses.
use seaweed.Base.{ℕ, ◌+◌, ◌*◌, ◌^◌, ◌<◌, ◌≤◌, ◌≡◌, ◌≢◌, refl, arith, true, false}
use seaweed.Base.{some}
use seaweed.Libk.Bitmap.{isset}
use seaweed.Mm.Layout.{pagesize}
use seaweed.Mm.Run.Laws.{FreeRun}
use seaweed.Mm.Frames.{Frames, page_count}
use seaweed.Mm.Paging.{Words, Vmm}
use seaweed.Mm.Paging.Walk.{translate}
use seaweed.Mm.Paging.Kernel.{kernel_map, KernelTables}
use seaweed.Mm.Paging.Space.{
  find_first_free_slot, small_space, build_space, create_new_address_space,
}
use seaweed.Mm.Paging.Space.Taken.{differ}
use seaweed.Mm.Paging.Space.Pages.{SpacePages, alloc-SpacePages}
use seaweed.Mm.Paging.Space.Built.{word_of, Linked, space, space-Linked}
use seaweed.Mm.Paging.Space.Placed.{
  Placed, IsKernelAddress, translate-Placed, translate-kernel, Creation, Creation-KernelTables,
}

build_space_small :
    (v : Vmm) (f : Frames) (index size r n : ℕ) (s : SpacePages f size r n)
    → let (v', f') = build_space v f index size 7 in
      (v'.words
        ≡ small_space v.words
            (s.p4 * pagesize)
            (s.p3 * pagesize)
            (s.p2 * pagesize)
            (s.p1 * pagesize)
            (s.base * pagesize)
            size
            7)
      × ((v'.page_directory_tables index).pml4 ≡ s.p4 * pagesize)
      × (v'.page_directory_count ≡ v.page_directory_count)
      × ((j : ℕ) → j ≢ index → v'.page_directory_tables j ≡ v.page_directory_tables j)
      × (f' ≡ s.f5)
unfolding build_space
build_space_small v f index size r n s =
    rw (s.took4, s.took3, s.took2, s.took1, s.took)
      (refl, ground arith, refl, λ j ne. ground arith, refl)

module _ (v : Vmm) (f : Frames) (index size r n : ℕ) (s : SpacePages f size r n)
    (w : f.total_detected_memory < 2 ^ 52) (few : size ≤ 512) where
  abbrev built : Vmm × Frames
  built = build_space v f index size 7

  built_words : Words
  built_words =
      small_space v.words (s.p4 * pagesize) (s.p3 * pagesize) (s.p2 * pagesize) (s.p1 * pagesize)
        (s.base * pagesize) size 7

  built-Linked : Linked v.words built_words s.p4 s.p3 s.p2 s.p1 s.base size
  unfolding built_words space
  built-Linked =
      space-Linked v.words s.p4 s.p3 s.p2 s.p1 s.base size s.ne43 s.ne42 s.ne41 s.ne32 s.ne31 s.ne21
        (omega (arith, s.below4)) (omega (arith, s.below3)) (omega (arith, s.below2))
        (omega (arith, s.below1)) (omega (arith, s.below)) few

  built-Placed : Placed built.0 built.1 index size s.base
  unfolding built_words
  built-Placed =
      let (words, root, _, _, frames) = build_space_small v f index size r n s in
      record {
        p4 = s.p4;
        p3 = s.p3;
        p2 = s.p2;
        p1 = s.p1;
        root = root;
        links = rw words built-Linked.links;
        used4 = rw frames s.used4;
        used3 = rw frames s.used3;
        used2 = rw frames s.used2;
        used1 = rw frames s.used1;
        used_pages = rw frames s.used_pages;
        below4 = omega (arith, s.below4);
        below3 = omega (arith, s.below3);
        below2 = omega (arith, s.below2);
        below1 = omega (arith, s.below1);
        below = omega (arith, s.below);
        few = few;
      }

  built_others :
      (q k : ℕ)
      → k < 512
      → isset f.bitmap q ≡ true
      → built.0.words (word_of q k) ≡ v.words (word_of q k)
  unfolding built_words
  built_others q k k_in used = rw (build_space_small v f index size r n s).0 (
      built-Linked.others q k k_in (differ f q s.p4 used s.free4) (differ f q s.p3 used s.free3)
        (differ f q s.p2 used s.free2) (differ f q s.p1 used s.free1))

  built-Creation : find_first_free_slot v ≡ some index → Creation v f index size r n
  unfolding create_new_address_space built-Placed
  built-Creation slot =
      let (_, _, count, slots, frames) = build_space_small v f index size r n s in
      record {
        after = built.0;
        frames = built.1;
        base = s.base;
        made = rw (slot, create_new_address_space) refl;
        placed = built-Placed;
        root_free = s.free4;
        free_pages = s.free_pages;
        later = rw frames s.later;
        fits = rw frames s.fits;
        run = rw frames s.run;
        same_count = count;
        other_slots = slots;
        others = built_others;
      }

-- Where a slot and a long enough run of pages are free.
pub create-Creation :
    (v : Vmm) (f : Frames) (index size r n : ℕ)
    → find_first_free_slot v ≡ some index
    → 0 < size
    → size ≤ 512
    → f.total_detected_memory < 2 ^ 52
    → r + (size + 4) + n ≤ page_count f
    → FreeRun f.bitmap r (size + 4 + n)
    → Creation v f index size r n
create-Creation v f index size r n slot pos few w fits run =
    built-Creation v f index size r n (alloc-SpacePages f size r n pos (omega arith) fits run) w few
      slot

-- createNewAddressSpace for up to 512 pages of 4 KiB with the flags 7, as createNewTask calls it, where
-- a slot of the table and a long enough run of pages are free, below 2^52 bytes of memory, and the
-- kernel's page tables stand in pages in use: it returns the slot, and in the space behind it every
-- address of the first pages is translated into the pages from `base` on, which were free before and
-- are in use after, every address of the kernel's two regions as in the kernel's own space; the
-- kernel's tables, the number of slots and the memory's size are as they were, and the root is in a
-- page that was free.
pub create_new_address_space_translates :
    (v : Vmm) (f : Frames) (m0 : Words) (size index r va kva : ℕ)
    → find_first_free_slot v ≡ some index
    → 0 < size
    → size ≤ 512
    → f.total_detected_memory < 2 ^ 52
    → r + (size + 4) ≤ page_count f
    → FreeRun f.bitmap r (size + 4)
    → KernelTables m0 v.words
    → ((j : ℕ) → 0x200 ≤ j → j < 0x208 → isset f.bitmap j ≡ true)
    → va < size * pagesize
    → IsKernelAddress kva
    → (v' : Vmm) × (f' : Frames) × (base : ℕ) × (create_new_address_space v f size 7
        ≡ some (v', f', index))
      × (translate v'.words (v'.page_directory_tables index).pml4 va ≡ some (base * pagesize + va))
      × (translate v'.words (v'.page_directory_tables index).pml4 kva ≡ kernel_map kva)
      × KernelTables m0 v'.words
      × FreeRun f.bitmap base size
      × ((j : ℕ) → base ≤ j → j < base + size → isset f'.bitmap j ≡ true)
      × ((page : ℕ) × ((v'.page_directory_tables index).pml4 ≡ page * pagesize)
          × (isset f.bitmap page ≡ false))
      × (v'.page_directory_count ≡ v.page_directory_count)
      × (f'.total_detected_memory ≡ f.total_detected_memory)
create_new_address_space_translates v f m0 size index r va kva slot pos few w fits run kernel used
      va_in kva_in =
    let c =
      create-Creation v f index size r 0 slot pos few w (omega arith)
        (λ j lo hi. run j lo (omega arith)) in
    (
      c.after,
      c.frames,
      c.base,
      c.made,
      translate-Placed c.placed va va_in,
      translate-kernel c.placed m0 kva (Creation-KernelTables c m0 kernel used) kva_in,
      Creation-KernelTables c m0 kernel used,
      c.free_pages,
      c.placed.used_pages,
      (c.placed.p4, c.placed.root, c.root_free),
      c.same_count,
      c.later.same_size,
    )
