-- ===== src/Sched/Scheduler/Switch.antt =====
-- `schedulerMain` on every path: which task runs next, and what becomes of the others.
use seaweed.Base.{ℕ, ◌*◌, ◌≡◌, ◌≢◌, refl, arith, ◌==◌, if◌then◌else◌, Bool, false, ltb}
use seaweed.Base.{Bool-cases, inl, inr, ◌⊎◌, ◌||◌, Option, none, some, ap, ◌∙◌}
use seaweed.Base.{update}
use seaweed.Sched.Task.{Regs, waiting_to_start, running, waiting, Task}
use seaweed.Sched.Scheduler.{
  Sched, Exit, start_task, switch_task, save, set_kernel_stack, leave, prepare, switch_to,
}
use seaweed.Sched.Scheduler.Pick.{}

abbrev pub is_current : Option ℕ → ℕ → Bool
is_current none j = false
is_current (some l) j = j == l

save_lem :
    (tasks : ℕ → Task) (last : Option ℕ) (regs : Regs) (j : ℕ)
    → save tasks last regs j
      ≡ (if is_current last j then record (tasks j) { regs = regs; status = waiting } else tasks j)
unfolding save
save_lem tasks none regs j = refl
save_lem tasks (some l) regs j = ground arith

-- A task that the scheduler may switch to.
abbrev pub CanRun : Task → Type 0
CanRun t = (t.status ≡ waiting_to_start) ⊎ (t.status ≡ waiting)

-- How the core leaves for the task.
unfoldable pub exit_to : Task → Exit
exit_to t = elim t.status [
  | waiting_to_start ↦ start_task t.regs.ss t.regs.rsp t.regs.cs t.entry_point
  | _ ↦ switch_task t.regs t.regs.ss
]

-- The core has left its task `last` for task `n`: `n` runs, rested, on its page tables and with its
-- kernel stack; `last`, if there is one, waits with the registers of the interrupt.
pub record Switched (s : Sched) (regs : Regs) (n : ℕ) (r : Sched × Exit) : Type 0 where
  pub exit : r.1 ≡ exit_to (s.tasks n)
  pub tasks :
      (j : ℕ)
      → r.0.tasks j ≡ (
          if j == n
          then record (s.tasks n) { idle_time = 0; status = running }
          else if is_current (s.cpu_info regs.core).current_task j
          then record (s.tasks j) { regs = regs; status = waiting }
          else s.tasks j)
  pub current :
      (c : ℕ)
      → (r.0.cpu_info c).current_task
        ≡ (if c == regs.core then some n else (s.cpu_info c).current_task)
  pub page_tables :
      r.0.cr3
      ≡ update s.cr3 regs.core (
          if ltb s.page_directory_count (s.tasks n).pml4_index || s.pml4 (s.tasks n).pml4_index == 0
          then s.cr3 regs.core
          else s.pml4 (s.tasks n).pml4_index)
  pub stack : r.0.rsp0 regs.core ≡ (s.tasks n).kernel_stack
  pub same_number : r.0.number_of_tasks ≡ s.number_of_tasks

leave_running :
    (s : Sched) (n : ℕ)
    → CanRun (s.tasks n)
    → leave s n ≡ (
      record s { tasks = update s.tasks n (record (s.tasks n) { status = running }) },
      exit_to (s.tasks n),
    )
unfolding leave exit_to
leave_running s n (inl e) = ground arith
leave_running s n (inr e) = ground arith

-- The task has not been run by this core, so saving the old task leaves it alone.
save_next :
    (s : Sched) (regs : Regs) (n : ℕ)
    → is_current (s.cpu_info regs.core).current_task n ≡ false
    → save s.tasks (s.cpu_info regs.core).current_task regs n ≡ s.tasks n
save_next s regs n not_last = save_lem s.tasks _ regs n ∙ rw not_last refl

prepare_next :
    (s : Sched) (regs : Regs) (n : ℕ)
    → is_current (s.cpu_info regs.core).current_task n ≡ false
    → (prepare s regs n).tasks n ≡ record (s.tasks n) { idle_time = 0 }
unfolding prepare
prepare_next s regs n not_last = ground (arith, save_next s regs n not_last)

prepare_other :
    (s : Sched) (regs : Regs) (n j : ℕ)
    → j ≢ n
    → (prepare s regs n).tasks j ≡ (
        if is_current (s.cpu_info regs.core).current_task j
        then record (s.tasks j) { regs = regs; status = waiting }
        else s.tasks j)
unfolding prepare
prepare_other s regs n j ne =
    let unchanged : (prepare s regs n).tasks j
        ≡ save s.tasks (s.cpu_info regs.core).current_task regs j =
      ground arith in
    unchanged ∙ save_lem s.tasks (s.cpu_info regs.core).current_task regs j

pub switch_to-Switched :
    (s : Sched) (regs : Regs) (n : ℕ)
    → CanRun (s.tasks n)
    → is_current (s.cpu_info regs.core).current_task n ≡ false
    → Switched s regs n (switch_to s regs (some n))
unfolding switch_to
switch_to-Switched s regs n can not_last =
    let next = prepare_next s regs n not_last in
    let can_now : CanRun ((prepare s regs n).tasks n) = rw next can in
    rw (leave_running (prepare s regs n) n can_now) (record {
      exit = ap exit_to next ∙ unfold exit_to in refl;
      tasks = λ j. elim (Bool-cases (j == n)) [
        | inl at ↦ rw (at, next) refl
        | inr off ↦ rw off (prepare_other s regs n j (ground arith))
      ];
      current = λ c. unfold prepare in ground arith;
      page_tables = unfold prepare in rw (save_next s regs n not_last) refl;
      stack = unfold prepare in ground (arith, save_next s regs n not_last);
      same_number = unfold prepare in refl;
    })

-- `setKernelStack` writes the stack into the TSS of the core, and into the one at twice its index.
pub set_kernel_stack_writes :
    (rsp0 : ℕ → ℕ) (core stack k : ℕ)
    → set_kernel_stack rsp0 core stack k ≡ (if k == core || k == 2 * core then stack else rsp0 k)
unfolding set_kernel_stack
set_kernel_stack_writes rsp0 core stack k = ground arith
