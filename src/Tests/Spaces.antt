-- ===== src/Tests/Spaces.antt =====
-- kernel/mm/virtualPageManager.c and the allocations of bootMain, on a memory of three megabytes.
use seaweed.Base.{ℕ, ◌+◌, ◌*◌, ◌<◌, ◌≤◌, ◌≡◌, refl, arith, true, false}
use seaweed.Base.{inr, some, ◌∙◌}
use seaweed.Base.{}
use seaweed.Libk.Bitmap.{isset}
use seaweed.Mm.Layout.{kernel_high_vma}
use seaweed.Mm.Run.{set_range}
use seaweed.Mm.Run.Laws.{isset-set_range}
use seaweed.Mm.Frames.{Frames}
use seaweed.Mm.Heap.{no_allocation}
use seaweed.Mm.Boot.{boot_memory, boot_memory_overlap}
use seaweed.Mm.Paging.{init_tables, Vmm, no_entry, init_vmm}
use seaweed.Mm.Paging.Walk.{translate}
use seaweed.Mm.Paging.Kernel.{kernel_map, init_vmm_translates}
use seaweed.Base.{List, [], ◌∷◌}
use seaweed.Mm.Paging.Space.Sequence.{create_spaces, Ready}
use seaweed.Mm.Paging.Space.Isolated.{AreIsolated, create_spaces_isolated}

-- The memory with the pages below `n` in use.
abbrev pub frames : ℕ → Frames
frames n = record { bitmap = set_range (λ a. 0) 0 n; total_detected_memory = 0x300000 }

pub frames_used : (n j : ℕ) → j < n → isset (frames n).bitmap j ≡ true
frames_used n j lt = isset-set_range (λ a. 0) 0 n j ∙ ground arith

pub frames_free : (n j : ℕ) → n ≤ j → isset (frames n).bitmap j ≡ false
frames_free n j le =
    let blank : isset (λ a. 0) j ≡ false = unfold isset in ground arith in
    isset-set_range (λ a. 0) 0 n j ∙ ground (arith, blank)

abbrev pub pages : Vmm
pages = record {
  page_directory_tables = λ i. no_entry;
  page_directory_count = 3;
  words = init_tables (λ w. 0);
  cr3 = 0;
}

init_vmm_translates_example :
    let after = init_vmm pages in
    translate after.words after.cr3 (kernel_high_vma + 0x1234)
    ≡ kernel_map (kernel_high_vma + 0x1234)
init_vmm_translates_example =
    init_vmm_translates pages (kernel_high_vma + 0x1234) (inr (omega arith, omega arith))

abbrev two_sizes : List ℕ
two_sizes = 2 ∷ 3 ∷ []

pages-Ready : Ready (λ w. 0) pages (frames 0x228) 0 0x228 13
pages-Ready = record {
  slots = record { taken = λ j lt. absurd (omega arith); free = λ j lo hi. refl };
  memory = omega arith;
  fits = omega arith;
  run = λ j lo hi. frames_free 0x228 j lo;
  kernel = λ w lo hi. refl;
  first_used = frames_used 0x228 0 (omega arith);
  kernel_used = λ j lo hi. frames_used 0x228 j (omega arith);
}

create_spaces_isolated_example :
    (v' : Vmm) × (f' : Frames) × (create_spaces pages (frames 0x228) two_sizes ≡ some (v', f'))
    × AreIsolated (frames 0x228) v' f' 0 two_sizes
create_spaces_isolated_example =
    create_spaces_isolated (λ w. 0) pages (frames 0x228) two_sizes 0 0x228
      (omega arith, omega arith, (omega arith, omega arith, tt)) (omega arith) pages-Ready

boot_memory_overlap_example :
    let (s', heap, stack) = boot_memory (frames 0x120) (λ a. 7) (λ i. no_allocation) in
    (stack ≡ 0x124000 + kernel_high_vma)
    × (heap.k_heap_begin ≡ 0x124000)
    × (heap.k_heap_begin ≤ 0x200000)
    × (0x208000 ≤ heap.k_heap_begin + heap.kbitmap_size * 32)
    × (isset s'.bitmap 0x203 ≡ true)
boot_memory_overlap_example =
    boot_memory_overlap (frames 0x120) (λ a. 7) (λ i. no_allocation) 0x203 (omega arith)
      (omega arith) (λ i lt. frames_used 0x120 i lt) (λ i lo hi. frames_free 0x120 i lo)
      (omega arith) (omega arith)
