-- ===== src/Sched/Create/NewTask.antt =====
-- A task that createNewTask (kernel/sched/scheduler.c) has added to those of the scheduler.
use seaweed.Base.{ℕ, ◌+◌, ◌-◌, ◌^◌, ◌<◌, ◌≤◌, ◌≡◌, ◌≢◌, refl, arith, ◌==◌}
use seaweed.Base.{Bool-cases, inl, inr, some, sym, ap, ◌∙◌}
use seaweed.Base.{}
use seaweed.Mm.Paging.{Vmm}
use seaweed.Mm.Paging.Space.Slots.{first_zero-at}
use seaweed.Sched.Task.{waiting_to_start, running, Task}
use seaweed.Sched.Scheduler.{Sched}
use seaweed.Sched.Scheduler.Invariant.{IsConsistent, current}
use seaweed.Sched.Create.{see_spaces, add_task, find_free_index}

-- The tasks stand at the front of the array, and only they have a kernel stack.
pub record IsPacked (s : Sched) : Type 0 where
  pub used : (i : ℕ) → i < s.number_of_tasks → (s.tasks i).kernel_stack ≢ 0
  pub free :
      (i : ℕ) → s.number_of_tasks ≤ i → i < s.max_number_of_tasks → (s.tasks i).kernel_stack ≡ 0

pub find_free_index-packed :
    (s : Sched)
    → IsPacked s
    → s.number_of_tasks < s.max_number_of_tasks
    → find_free_index s ≡ some s.number_of_tasks
unfolding find_free_index
find_free_index-packed s packed room =
    first_zero-at _ s.max_number_of_tasks 0 s.number_of_tasks (omega arith) (omega arith)
      (λ j _ below. packed.used j below) (packed.free _ (omega arith) room)

module _ (s : Sched) (v : Vmm) (t : Task) (starts : t.status ≡ waiting_to_start)
    (room : s.number_of_tasks < 2 ^ 64 - 1) where
  abbrev pub added : Sched
  added = add_task (see_spaces s v) s.number_of_tasks t

  pub added_number : added.number_of_tasks ≡ s.number_of_tasks + 1
  added_number = unfold add_task see_spaces in omega arith

  pub added_last : added.tasks s.number_of_tasks ≡ t
  added_last = unfold add_task see_spaces in ground arith

  pub added_old : (j : ℕ) → j ≢ s.number_of_tasks → added.tasks j ≡ s.tasks j
  added_old j ne = unfold add_task see_spaces in ground arith

  added-same : (c : ℕ) → current added c ≡ current s c
  added-same c = unfold add_task see_spaces in refl

  pub added_room : added.max_number_of_tasks ≡ s.max_number_of_tasks
  added_room = unfold add_task see_spaces in refl

  -- A task that runs afterwards is one of the old ones.
  added_running :
      (j : ℕ)
      → j < added.number_of_tasks
      → (added.tasks j).status ≡ running
      → (j < s.number_of_tasks) × (added.tasks j ≡ s.tasks j)
  added_running j lt e = elim (Bool-cases (j == s.number_of_tasks)) [
    | inl last ↦
        let same : j ≡ s.number_of_tasks = ground arith in
        let is : added.tasks j ≡ t = rw same added_last in
        let clash : waiting_to_start ≡ running = sym starts ∙ sym (ap (λ u. u.status) is) ∙ e in
        absurd (cc)
    | inr old ↦ (ground (arith, added_number), added_old j (ground arith))
  ]

  pub added-IsPacked : t.kernel_stack ≢ 0 → IsPacked s → IsPacked added
  added-IsPacked ne packed = record {
    used = λ i lt. elim (Bool-cases (i == s.number_of_tasks)) [
      | inl last ↦ let same : i ≡ s.number_of_tasks = ground arith in rw (same, added_last) ne
      | inr old ↦ rw (added_old i (ground arith)) (packed.used i (ground (arith, added_number)))
    ];
    free = λ i lo hi.
        rw (added_old i (omega (arith, added_number)))
          (packed.free i (omega (arith, added_number)) (rw added_room at hi));
  }

  pub added-IsConsistent : IsConsistent s → IsConsistent added
  added-IsConsistent c = record {
    in_range = λ k j e. rw added_number (omega (arith, c.in_range k j (rw (added-same k) at e)));
    runs = λ k j e.
        let e' : current s k ≡ some j = rw (added-same k) at e in
        rw (added_old j (omega (arith, c.in_range k j e'))) (c.runs k j e');
    alone = λ k d j e e'. c.alone k d j (rw (added-same k) at e) (rw (added-same d) at e');
    owned = λ j lt e.
        let (below, same) = added_running j lt e in
        let (k, is) = c.owned j below (rw same at e) in (k, added-same k ∙ is);
    rested = λ j lt e.
        let (below, same) = added_running j lt e in rw same (c.rested j below (rw same at e));
  }
