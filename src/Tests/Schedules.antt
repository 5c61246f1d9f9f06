-- ===== src/Tests/Schedules.antt =====
-- kernel/sched/scheduler.c with three tasks on two cores.
use seaweed.Base.{ℕ, ◌≡◌, refl, arith, ◌==◌, if◌then◌else◌}
use seaweed.Base.{Option, none, some, sym, ◌∙◌, [], ◌∷◌}
use seaweed.Sched.Scheduler.Served.{Served, scheduler_main_serves}
use seaweed.Base.{}
use seaweed.Sched.Task.{Regs, Status, running, waiting, other, Task, Thread}
use seaweed.Sched.Scheduler.{
  Sched, pick, idle_longer, save, prepare, leave, switch_to, scheduler_main,
}
use seaweed.Sched.Scheduler.Invariant.{IsConsistent, current}
use seaweed.Sched.Scheduler.Outcome.{
  Picked, Outcome, scheduler_main-Outcome, scheduler_main-IsConsistent,
}

abbrev pub regs_on : ℕ → Regs
regs_on core = record {
  r15 = 0;
  r14 = 0;
  r13 = 0;
  r12 = 0;
  r11 = 0;
  r10 = 0;
  r9 = 0;
  r8 = 0;
  rsi = 0;
  rdi = 0;
  rbp = 0;
  rdx = 0;
  rcx = 0;
  rbx = 0;
  rax = 0;
  core = core;
  isr_number = 32;
  error_code = 0;
  rip = 0x1000;
  cs = 8;
  rflags = 0x202;
  rsp = 0x8000;
  ss = 0x10;
}

abbrev pub thread : Thread
thread = record {
  status = other;
  regs = regs_on 0;
  kernel_stack = 0;
  entry_point = 0;
  idle_time = 0;
}

abbrev pub task : Status → ℕ → ℕ → Task
task status stack idle = record {
  status = status;
  pml4_index = 0;
  regs = regs_on 0;
  threads_at = 0;
  threads = λ i. thread;
  kernel_stack = stack;
  entry_point = 0x4000;
  idle_time = idle;
  number_of_threads = 0;
  max_number_of_threads = 10;
}

-- Task 0 runs on core 1; tasks 1 and 2 wait.
abbrev three_tasks : Sched
three_tasks = record {
  tasks = λ i.
      if i == 0
      then task running 0x9000 0
      else if i == 1
      then task waiting 0xa000 3
      else task waiting 0xb000 5;
  number_of_tasks = 3;
  max_number_of_tasks = 10;
  cpu_info = λ c. record {
    core_id = c;
    number_of_tasks = 0;
    current_task = if c == 1 then some 0 else none;
  };
  pml4 = λ i. if i == 0 then 0x7000 else 0;
  page_directory_count = 1000;
  cr3 = λ c. 0x200000;
  rsp0 = λ c. 0;
}

-- The longest waiting task takes over, and the old one waits with the registers it was stopped at.
switches :
    (((scheduler_main three_tasks (regs_on 1)).0.cpu_info 1).current_task ≡ some 2)
    × (((scheduler_main three_tasks (regs_on 1)).0.tasks 0).status ≡ waiting)
    × (((scheduler_main three_tasks (regs_on 1)).0.tasks 1).idle_time ≡ 4)
    × ((scheduler_main three_tasks (regs_on 1)).0.rsp0 2 ≡ 0xb000)
    × ((scheduler_main three_tasks (regs_on 1)).0.cr3 1 ≡ 0x7000)
unfolding scheduler_main pick idle_longer switch_to prepare leave save
switches = (refl, refl, refl, refl, refl)

running_task : (t : ℕ) → (three_tasks.tasks t).status ≡ running → t ≡ 0
running_task t e = ground arith

current_task : (c t : ℕ) → current three_tasks c ≡ some t → (c ≡ 1) × (t ≡ 0)
current_task c t e = ground arith

three_tasks-IsConsistent : IsConsistent three_tasks
three_tasks-IsConsistent = record {
  in_range = λ c t e. omega (arith, current_task c t e);
  runs = λ c t e. rw (current_task c t e).1 refl;
  alone = λ c d t e e'. (current_task c t e).0 ∙ sym (current_task d t e').0;
  owned = λ t lt e. (1, rw (running_task t e) refl);
  rested = λ t lt e. rw (running_task t e) refl;
}

scheduler_main-Outcome_example :
    (o : Option ℕ) × Picked three_tasks o
    × Outcome three_tasks (regs_on 1) o (scheduler_main three_tasks (regs_on 1))
scheduler_main-Outcome_example =
    scheduler_main-Outcome three_tasks (regs_on 1) three_tasks-IsConsistent (λ j lt. ground arith)

scheduler_main-IsConsistent_example : IsConsistent (scheduler_main three_tasks (regs_on 1)).0
scheduler_main-IsConsistent_example =
    scheduler_main-IsConsistent three_tasks (regs_on 1) three_tasks-IsConsistent
      (λ j lt. ground arith)

scheduler_main_serves_example : Served 1 three_tasks (regs_on 1 ∷ regs_on 0 ∷ regs_on 1 ∷ [])
scheduler_main_serves_example =
    scheduler_main_serves three_tasks 1 (regs_on 1 ∷ regs_on 0 ∷ regs_on 1 ∷ [])
      three_tasks-IsConsistent (λ j lt. ground arith) (λ j lt. ground arith) (omega arith) refl
      (omega arith)
