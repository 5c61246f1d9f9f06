-- ===== src/Sched/Create/Starts.antt =====
-- createNewTask and the next call of schedulerMain (kernel/sched/scheduler.c): the new task starts,
-- in its own address space.
use seaweed.Base.{ℕ, ◌-◌, ◌^◌, ◌<◌, ◌≡◌, ◌≢◌, refl, arith, ◌==◌}
use seaweed.Base.{Bool-cases, inl, inr, Option, none, some, ap, ◌∙◌}
use seaweed.Base.{}
use seaweed.Mm.Heap.{
  Heap, fault, kmalloc, first_free_slot, first_free_allocation_slot, take_from, take_found,
  take_run,
}
use seaweed.Mm.Paging.{Vmm}
use seaweed.Sched.Task.{Regs, waiting_to_start, waiting, Task}
use seaweed.Sched.Scheduler.{Sched, Exit, start_task, scheduler_main}
use seaweed.Sched.Scheduler.Pick.{pick_tasks, age-passes}
use seaweed.Sched.Scheduler.Switch.{Switched, exit_to}
use seaweed.Sched.Scheduler.Invariant.{IsConsistent, current, aged}
use seaweed.Sched.Scheduler.Outcome.{NoneToStart, NoWrap, Picked, Outcome, scheduler_main-Outcome}
use seaweed.Sched.Create.{see_spaces, add_task}
use seaweed.Sched.Create.NewTask.{added, added_number, added_last, added_old, added-IsConsistent}

take_found-answers :
    (h : Heap) (count e : ℕ) (o : Option ℕ)
    → first_free_allocation_slot h ≡ some e
    → (take_found h count o).1 ≢ fault
unfolding take_found take_run
take_found-answers h count e none entry = cc
take_found-answers h count e (some base) entry = rw entry (cc)

-- With a free block and a free entry in its table the heap answers with an address or NULL.
pub kmalloc-answers :
    (h : Heap) (size b e : ℕ)
    → first_free_slot h ≡ some b
    → first_free_allocation_slot h ≡ some e
    → (kmalloc h size).1 ≢ fault
unfolding kmalloc take_from
kmalloc-answers h size b e block entry = rw block (take_found-answers h _ e _ entry)

-- A task that does not wait does not age.
aged_same : (s : Sched) (j : ℕ) → (s.tasks j).status ≢ waiting → (aged s).tasks j ≡ s.tasks j
unfolding aged
aged_same s j ne =
    ground (arith, pick_tasks s.tasks s.number_of_tasks 0 0 none j, age-passes (s.tasks j) ne)

module _ (s : Sched) (v : Vmm) (t : Task) (regs : Regs) (starts : t.status ≡ waiting_to_start)
    (room : s.number_of_tasks < 2 ^ 64 - 1) (none_starts : NoneToStart s) where
  abbrev next : Sched
  next = added s v t starts room

  new_below : s.number_of_tasks < next.number_of_tasks
  new_below = omega (arith, added_number s v t starts room)

  new_starts : (next.tasks s.number_of_tasks).status ≡ waiting_to_start
  new_starts = rw (added_last s v t starts room) starts

  old_starts :
      (n : ℕ)
      → n ≢ s.number_of_tasks
      → n < next.number_of_tasks
      → (next.tasks n).status ≢ waiting_to_start
  old_starts n ne lt =
      rw (added_old s v t starts room n ne)
        (none_starts n (omega (arith, added_number s v t starts room)))

  -- The only task that waits to start is the new one.
  Outcome-starts :
      (o : Option ℕ) (r : Sched × Exit)
      → Picked next o
      → Outcome next regs o r
      → Switched (aged next) regs s.number_of_tasks r
  Outcome-starts none r nobody _ = absurd (nobody s.number_of_tasks new_below (inl new_starts))
  Outcome-starts (some n) r (inl (lt, first, _)) switched =
      elim (Bool-cases (n == s.number_of_tasks)) [
        | inl is ↦ let same : n ≡ s.number_of_tasks = ground arith in rw same at switched
        | inr off ↦ absurd (old_starts n (ground arith) lt first)
      ]
  Outcome-starts (some n) r (inr (nothing, _)) _ =
      absurd (nothing s.number_of_tasks new_below new_starts)

  aged_new : (aged next).tasks s.number_of_tasks ≡ t
  aged_new = aged_same next s.number_of_tasks (rw new_starts (cc)) ∙ added_last s v t starts room

  new_NoWrap : NoWrap s → t.idle_time ≡ 0 → NoWrap next
  new_NoWrap w rested j lt = elim (Bool-cases (j == s.number_of_tasks)) [
    | inl is ↦
        let same : j ≡ s.number_of_tasks = ground arith in
        rw (same, added_last s v t starts room, rested) (omega arith)
    | inr off ↦
        rw (added_old s v t starts room j (ground arith))
          (w j (ground (arith, added_number s v t starts room)))
  ]

  exit_to-new :
      exit_to ((aged next).tasks s.number_of_tasks)
      ≡ start_task t.regs.ss t.regs.rsp t.regs.cs t.entry_point
  unfolding exit_to
  exit_to-new = rw aged_new (ground (arith, starts))

  cr3_new :
      (r : Sched × Exit)
      → Switched (aged next) regs s.number_of_tasks r
      → t.pml4_index < v.page_directory_count
      → (v.page_directory_tables t.pml4_index).pml4 ≢ 0
      → r.0.cr3 regs.core ≡ (v.page_directory_tables t.pml4_index).pml4
  cr3_new r switched in_range root =
      let spaces : (aged next).pml4 ≡ (λ i. (v.page_directory_tables i).pml4) =
        unfold aged add_task see_spaces in refl in
      let count : (aged next).page_directory_count ≡ v.page_directory_count =
        unfold aged add_task see_spaces in refl in
      ap (λ f. f regs.core) switched.page_tables ∙ rw (aged_new, spaces, count) (ground arith)

  -- The core starts the new task, on the root of its space.
  pub scheduler_main-new :
      IsConsistent s
      → NoWrap s
      → t.idle_time ≡ 0
      → t.pml4_index < v.page_directory_count
      → (v.page_directory_tables t.pml4_index).pml4 ≢ 0
      → let r = scheduler_main next regs in
        (r.1 ≡ start_task t.regs.ss t.regs.rsp t.regs.cs t.entry_point)
        × (current r.0 regs.core ≡ some s.number_of_tasks)
        × (r.0.cr3 regs.core ≡ (v.page_directory_tables t.pml4_index).pml4)
        × (r.0.rsp0 regs.core ≡ t.kernel_stack)
  scheduler_main-new c w rested in_range root =
      let w' : NoWrap next = new_NoWrap w rested in
      let (o, picked, out) =
        scheduler_main-Outcome next regs (added-IsConsistent s v t starts room c) w' in
      let switched = Outcome-starts o (scheduler_main next regs) picked out in
      (
        switched.exit ∙ exit_to-new,
        switched.current regs.core ∙ ground arith,
        cr3_new (scheduler_main next regs) switched in_range root,
        switched.stack ∙ rw aged_new refl,
      )
