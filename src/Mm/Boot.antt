-- ===== src/Mm/Boot.antt =====
-- kernel/kernelMain.c, bootMain: the allocations between initPMM and initVMM, in their order.
use seaweed.Base.{ℕ, ◌+◌, ◌*◌, ◌^◌, ◌<◌, ◌≤◌, ◌≡◌, refl, arith, if◌then◌else◌, true, false, ltb}
use seaweed.Base.{Bool-cases, inl, inr, sym, ◌∙◌}
use seaweed.Base.{u64}
use mathlib.Core.Bool.{false≢true}
use seaweed.Libk.Bitmap.{Bytes, isset}
use seaweed.Mm.Layout.{pagesize, kernel_high_vma}
use seaweed.Mm.Run.Laws.{within, FreeRun}
use seaweed.Mm.Frames.{Frames, page_count, physical_page_alloc}
use seaweed.Mm.Frames.Alloc.{physical_page_alloc-FirstFit}
use seaweed.Mm.Heap.{Allocation, Heap, k_heap_init}
use seaweed.Mm.Paging.Space.Taken.{Takes, alloc-Takes}

-- The stack that bootMain moves to, and the heap: the frames, the heap and the stack's top.
unfoldable pub boot_memory : Frames → Bytes → (ℕ → Allocation) → Frames × Heap × ℕ
boot_memory s bits entries =
    let (s1, stack) = physical_page_alloc s 4 in
    let (s2, heap, _, _) = k_heap_init s1 bits entries in
    (s2, heap, u64 (stack + 0x4000 + kernel_high_vma))

-- The first run of free pages is the one at `r`, if the pages before `r` are in use.
Takes-at :
    {s : Frames} {after : Frames × ℕ} {count r : ℕ}
    → 0 < count
    → Takes s count r after
    → ((j : ℕ) → j < r → isset s.bitmap j ≡ true)
    → after.1 ≡ r * pagesize
Takes-at {s} {after} {count} {r} pos t used = elim (Bool-cases (ltb t.page r)) [
  | inl before ↦ absurd (
      false≢true (sym (t.was_free t.page (omega arith) (omega arith)) ∙ used t.page (ground arith)))
  | inr here ↦ let same : t.page ≡ r = ground (arith, t.early) in t.at ∙ rw same refl
]

-- The pages behind the run stay as they were, and those of the run are in use.
Takes-marks :
    {s : Frames} {after : Frames × ℕ} {count r : ℕ} (j : ℕ)
    → Takes s count r after
    → after.1 ≡ r * pagesize
    → isset after.0.bitmap j ≡ (if within r count j then true else isset s.bitmap j)
Takes-marks {s} {after} {count} {r} j t at =
    let same : t.page ≡ r = omega (arith, t.at, at) in t.marks j ∙ rw same refl

-- An allocation, whether it succeeds or not, leaves a page in use in use.
alloc-keeps :
    (s : Frames) (count j : ℕ)
    → 0 < count
    → s.total_detected_memory < 2 ^ 64
    → let after = (physical_page_alloc s count).0 in
      (after.total_detected_memory ≡ s.total_detected_memory)
      × (isset s.bitmap j ≡ true → isset after.bitmap j ≡ true)
alloc-keeps s count j pos w = elim (physical_page_alloc-FirstFit s count pos w) [
  | inl (q, _, _, _, marks, size) ↦ (size, λ used. ground (arith, marks j))
  | inr (_, _, same) ↦ rw same (refl, λ used. used)
]

-- Where at least 0x224 pages are counted, those below 0x120 are in use, as after initPMM, and the next
-- 0x104 are free, bootMain gets its stack at 0x120000 and the heap at 0x124000: the megabyte of the
-- heap contains the eight page tables that initVMM then writes from 0x200000 on. The pages of the
-- tables are in use because the heap took them.
pub boot_memory_overlap :
    (s : Frames) (bits : Bytes) (entries : ℕ → Allocation) (j : ℕ)
    → s.total_detected_memory < 2 ^ 64
    → 0x224 ≤ page_count s
    → ((i : ℕ) → i < 0x120 → isset s.bitmap i ≡ true)
    → FreeRun s.bitmap 0x120 0x104
    → 0x200 ≤ j
    → j < 0x208
    → let (s', heap, stack) = boot_memory s bits entries in
      (stack ≡ 0x124000 + kernel_high_vma)
      × (heap.k_heap_begin ≡ 0x124000)
      × (heap.k_heap_begin ≤ 0x200000)
      × (0x208000 ≤ heap.k_heap_begin + heap.kbitmap_size * 32)
      × (isset s'.bitmap j ≡ true)
unfolding boot_memory k_heap_init
boot_memory_overlap s bits entries j w counted low run lo hi =
    let s1 = (physical_page_alloc s 4).0 in
    let t1 = alloc-Takes s 4 0x120 (omega arith) w (omega arith) (λ i a b. run i a (omega arith)) in
    let at1 = Takes-at (omega arith) t1 low in
    let marks1 = λ (i : ℕ). Takes-marks i t1 at1 in
    let run1 : FreeRun s1.bitmap 0x124 0x100 = λ i a b.
      let out : within 0x120 4 i ≡ false = ground arith in
      marks1 i ∙ rw out (run i (omega arith) (omega arith)) in
    let low1 : (i : ℕ) → i < 0x124 → isset s1.bitmap i ≡ true = λ i lt.
      elim (Bool-cases (within 0x120 4 i)) [
        | inl inside ↦ marks1 i ∙ rw inside refl
        | inr out ↦ marks1 i ∙ rw out (low i (ground arith))
      ] in
    let s2 = (physical_page_alloc s1 0x100).0 in
    let t2 =
      alloc-Takes s1 0x100 0x124 (omega arith) (omega (arith, t1.same_size))
        (omega (arith, t1.same_size)) (λ i a b. run1 i a (omega arith)) in
    let at2 = Takes-at (omega arith) t2 low1 in
    let marks2 = λ (i : ℕ). Takes-marks i t2 at2 in
    let size2 : s2.total_detected_memory ≡ s.total_detected_memory = t2.same_size ∙ t1.same_size in
    let used2 : isset s2.bitmap j ≡ true =
      let inside : within 0x124 0x100 j ≡ true = ground arith in marks2 j ∙ rw inside refl in
    let (size3, keeps3) = alloc-keeps s2 1 j (omega arith) (omega (arith, size2)) in
    let s3 = (physical_page_alloc s2 1).0 in
    let (_, keeps4) = alloc-keeps s3 16 j (omega arith) (omega (arith, size3, size2)) in
    (rw at1 refl, at2, omega (arith, at2), omega (arith, at2), keeps4 (keeps3 used2))
