-- ===== src/Sched/Create/Runs.antt =====
-- createNewTask as a whole, from the call to the first instruction of the task.
use seaweed.Base.{ℕ, ◌+◌, ◌-◌, ◌*◌, ◌^◌, ◌<◌, ◌≤◌, ◌≡◌, ◌≢◌, refl, arith, true}
use seaweed.Base.{inl, inr, some, sym, ap, ◌∙◌}
use seaweed.Base.{u64}
use mathlib.Core.Bool.{false≢true}
use seaweed.Libk.Bitmap.{isset}
use seaweed.Mm.Layout.{pagesize, high_vma}
use seaweed.Mm.Run.Laws.{FreeRun}
use seaweed.Mm.Frames.{Frames, page_count, physical_page_alloc}
use seaweed.Mm.Frames.Alloc.{physical_page_alloc-FirstFit}
use seaweed.Mm.Heap.{fault, kmalloc, address, first_free_slot, first_free_allocation_slot}
use seaweed.Mm.Paging.{Words, Vmm}
use seaweed.Mm.Paging.Walk.{translate}
use seaweed.Mm.Paging.Kernel.{KernelTables}
use seaweed.Mm.Paging.Space.{find_first_free_slot, create_new_address_space}
use seaweed.Mm.Paging.Space.Created.{create_new_address_space_translates}
use seaweed.Sched.Task.{Regs, waiting_to_start, Task, Thread}
use seaweed.Sched.Scheduler.{start_task, scheduler_main}
use seaweed.Sched.Scheduler.Invariant.{IsConsistent, current}
use seaweed.Sched.Scheduler.Outcome.{NoneToStart, NoWrap}
use seaweed.Sched.Create.{
  Kernel, see_spaces, add_task, find_free_index, set_regs, new_task, finish_task, create_new_task,
  thread_size,
}
use seaweed.Mm.Paging.Space.Slots.{first_zero_bound}
use seaweed.Sched.Create.NewTask.{
  IsPacked, find_free_index-packed, added, added_old, added-IsPacked, added-IsConsistent,
}
use seaweed.Sched.Create.Starts.{kmalloc-answers, scheduler_main-new}

-- The address of a stack, and the top of it in the upper half, which is never 0.
pub stack_top :
    (f : Frames)
    → f.total_detected_memory < 2 ^ 46
    → u64 ((physical_page_alloc f 2).1 + 0x2000 + high_vma) ≢ 0
stack_top f w = elim (physical_page_alloc-FirstFit f 2 (omega arith) (omega arith)) [
  | inl (q, is, (fits, _), _, _, _) ↦ rw is (omega (arith, fits))
  | inr (_, nowhere, _) ↦ rw nowhere (omega arith)
]

module _ (k : Kernel) (regs : Regs) (unset : ℕ → Thread) (entry_point index pml4_index : ℕ) where
  -- The task that `finish_task` adds, and the kernel with it.
  abbrev pub finished : Task
  finished =
      new_task regs unset pml4_index (address (kmalloc k.heap (thread_size * 10)).1)
        (physical_page_alloc k.frames 2).1 entry_point

  abbrev pub with_task : Kernel
  with_task = record k {
    sched = add_task (see_spaces k.sched k.vmm) index finished;
    frames = (physical_page_alloc k.frames 2).0;
    heap = (kmalloc k.heap (thread_size * 10)).0;
  }

  finish_task-some :
      (kmalloc k.heap (thread_size * 10)).1 ≢ fault
      → finish_task k regs unset entry_point index pml4_index ≡ some with_task
  unfolding finish_task
  finish_task-some ne = ground arith

pub create_new_task-some :
    (k : Kernel) (held : Regs) (unset : ℕ → Thread) (ss rsp cs entry_point size index i : ℕ)
    (v : Vmm) (f : Frames)
    → find_free_index k.sched ≡ some index
    → create_new_address_space k.vmm k.frames size 7 ≡ some (v, f, i)
    → (kmalloc k.heap (thread_size * 10)).1 ≢ fault
    → create_new_task k held unset ss rsp cs entry_point size
      ≡ some (
          with_task
            (record k { vmm = v; frames = f })
            (set_regs held ss rsp cs)
            unset
            entry_point
            index
            i)
unfolding create_new_task
create_new_task-some k held unset ss rsp cs entry_point size index i v f found made answers =
    rw (found, made, create_new_task)
      (finish_task-some (record k { vmm = v; frames = f }) (set_regs held ss rsp cs) unset
        entry_point index i answers)

-- createNewTask for 1 to 512 pages, where the tasks stand at the front of their array with room behind
-- them, cores and tasks are matched and no task waits to start, a slot for the address space, a run of
-- four pages more than the task has, a heap block and an entry of the heap's table are free, and page 0
-- and those of the kernel's page tables are in use: the tasks are as before and at the front, the new
-- one behind them; and the next call of schedulerMain, on any core, starts it at its entry point with
-- its stack and segments, with the page tables loaded by which its addresses lead to pages that were
-- free before.
pub create_new_task_starts :
    (k : Kernel) (held : Regs) (unset : ℕ → Thread) (m0 : Words) (ss rsp cs entry_point : ℕ)
    (size index r b e va : ℕ) (regs : Regs)
    → IsConsistent k.sched
    → IsPacked k.sched
    → NoneToStart k.sched
    → NoWrap k.sched
    → k.sched.number_of_tasks < k.sched.max_number_of_tasks
    → k.sched.max_number_of_tasks < 2 ^ 64
    → find_first_free_slot k.vmm ≡ some index
    → first_free_slot k.heap ≡ some b
    → first_free_allocation_slot k.heap ≡ some e
    → 0 < size
    → size ≤ 512
    → k.frames.total_detected_memory < 2 ^ 46
    → r + (size + 4) ≤ page_count k.frames
    → FreeRun k.frames.bitmap r (size + 4)
    → KernelTables m0 k.vmm.words
    → isset k.frames.bitmap 0 ≡ true
    → ((j : ℕ) → 0x200 ≤ j → j < 0x208 → isset k.frames.bitmap j ≡ true)
    → va < size * pagesize
    → (k' : Kernel) × (base : ℕ) × (create_new_task k held unset ss rsp cs entry_point size
        ≡ some k')
      × IsConsistent k'.sched
      × IsPacked k'.sched
      × ((j : ℕ) → j < k.sched.number_of_tasks → k'.sched.tasks j ≡ k.sched.tasks j)
      × FreeRun k.frames.bitmap base size
      × (let (s, exit) = scheduler_main k'.sched regs in
          (exit ≡ start_task ss rsp cs entry_point)
          × (current s regs.core ≡ some k.sched.number_of_tasks)
          × (translate k'.vmm.words (s.cr3 regs.core) va ≡ some (base * pagesize + va)))
create_new_task_starts k held unset m0 ss rsp cs entry_point size index r b e va regs c packed
      none_starts w room max_word slot block entry pos few memory fits run kernel first used va_in =
    let (v', f', base, made, maps, _, _, free, _, (page, root, was_free), count, same_size) =
      create_new_address_space_translates k.vmm k.frames m0 size index r va high_vma slot pos few
        (omega arith) fits run kernel used va_in (inl (omega arith, omega arith)) in
    let n = k.sched.number_of_tasks in
    let k1 = record k { vmm = v'; frames = f' } in
    let t = finished k1 (set_regs held ss rsp cs) unset entry_point n index in
    let starts : t.status ≡ waiting_to_start = unfold new_task in refl in
    let stack : t.kernel_stack ≢ 0 = unfold new_task in stack_top f' (omega (arith, same_size)) in
    let some_room : n < 2 ^ 64 - 1 = omega arith in
    let page_used : page ≢ 0 =
      λ is. false≢true (sym was_free ∙ (ap (λ j. isset k.frames.bitmap j) is ∙ first)) in
    let root_some : (v'.page_directory_tables index).pml4 ≢ 0 = rw root (omega arith) in
    let in_range : index < v'.page_directory_count =
      let bound =
        first_zero_bound (λ i. (k.vmm.page_directory_tables i).pml4) k.vmm.page_directory_count 0
          index (unfold find_first_free_slot in slot) in
      omega (arith, count, bound) in
    let (exit, now, cr3, _) =
      scheduler_main-new k.sched v' t regs starts some_room none_starts c w
        (unfold new_task in refl) (unfold new_task in in_range) (unfold new_task in root_some) in
    let loaded : (scheduler_main (added k.sched v' t starts some_room) regs).0.cr3 regs.core
        ≡ (v'.page_directory_tables index).pml4 =
      cr3 ∙ unfold new_task in refl in
    (
      with_task k1 (set_regs held ss rsp cs) unset entry_point n index,
      base,
      create_new_task-some k held unset ss rsp cs entry_point size n index v' f'
          (find_free_index-packed k.sched packed room) made
          (kmalloc-answers k.heap _ b e block entry),
      added-IsConsistent k.sched v' t starts some_room c,
      added-IsPacked k.sched v' t starts some_room stack packed,
      λ j lt. added_old k.sched v' t starts some_room j (omega arith),
      free,
      (
        exit ∙ unfold new_task set_regs in refl,
        now,
        ap (λ table. translate v'.words table va) loaded ∙ maps,
      ),
    )
