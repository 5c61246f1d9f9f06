-- ===== src/Sched/Scheduler.antt =====
-- kernel/sched/scheduler.c: `schedulerMain`, which the timer interrupt of each core calls.
-- It holds its lock from the first line until it switches or returns, so a call is one step.
pub mod Pick
pub mod Choice
pub mod Switch
pub mod Invariant
pub mod Outcome
pub mod Fairness
pub mod Served
use seaweed.Base.{
  ℕ, zero, suc, ◌+◌, ◌==◌, if◌then◌else◌, ltb, ◌||◌, Option, none, some, u64, update,
}
use seaweed.Sched.Task.{Regs, Status, waiting_to_start, running, waiting, other, Task, CpuInfo}

-- What the scheduler reads and writes: its own globals, the page directories (the address of each
-- one's top table), and per core the register cr3; `rsp0` is that field of each TSS.
pub record Sched : Type 0 where
  pub tasks : ℕ → Task
  pub number_of_tasks : ℕ
  pub max_number_of_tasks : ℕ
  pub cpu_info : ℕ → CpuInfo
  pub pml4 : ℕ → ℕ
  pub page_directory_count : ℕ
  pub cr3 : ℕ → ℕ
  pub rsp0 : ℕ → ℕ

-- How `schedulerMain` ends: it returns to what was interrupted, or leaves by `startTask` or
-- `switchTask` with their arguments, which load the registers and do not come back.
pub data Exit : Type 0 where
  return : Exit
  start_task : ℕ → ℕ → ℕ → ℕ → Exit
  switch_task : Regs → ℕ → Exit

-- `++tasks[i].idleTime`
unfoldable pub idle_longer : Task → Task
idle_longer t = record t { idle_time = u64 (t.idle_time + 1) }

-- The loop that looks for the next task; `left` tasks remain from `i` on.
unfoldable pub pick : (ℕ → Task) → ℕ → ℕ → ℕ → Option ℕ → (ℕ → Task) × Option ℕ
pick tasks zero i cnt next = (tasks, next)
pick tasks (suc left) i cnt next = elim (tasks i).status [
  | waiting ↦
      let t = idle_longer (tasks i) in
      let longest = ltb cnt t.idle_time in
      pick (update tasks i t) left (i + 1) (if longest then t.idle_time else cnt)
        (if longest then some i else next)
  | waiting_to_start ↦ (tasks, some i)
  | _ ↦ pick tasks left (i + 1) cnt next
]

-- `tasks[lastTask].regs = *regs; tasks[lastTask].status = WAITING`
unfoldable pub save : (ℕ → Task) → Option ℕ → Regs → ℕ → Task
save tasks none regs = tasks
save tasks (some last) regs =
    update tasks last (record (tasks last) { regs = regs; status = waiting })

-- `initAddressSpace`: the value that it leaves in cr3.
unfoldable pub init_address_space : Sched → ℕ → ℕ → ℕ
init_address_space s cr3 index =
    if ltb s.page_directory_count index || s.pml4 index == 0 then cr3 else s.pml4 index

-- `setKernelStack`: `tss` is already the address of the core's TSS when it is indexed by the core.
unfoldable pub set_kernel_stack : (ℕ → ℕ) → ℕ → ℕ → ℕ → ℕ
set_kernel_stack rsp0 core stack = update (update rsp0 (core + core) stack) core stack

-- The last part: the task runs. It is waiting or waiting to start, or else the call returns.
unfoldable pub leave : Sched → ℕ → Sched × Exit
leave s next =
    let t = s.tasks next in
    let running_now = record s { tasks = update s.tasks next (record t { status = running }) } in
    elim t.status [
      | waiting_to_start ↦ (running_now, start_task t.regs.ss t.regs.rsp t.regs.cs t.entry_point)
      | waiting ↦ (running_now, switch_task t.regs t.regs.ss)
      | _ ↦ (s, return)
    ]

-- The old task is saved, and the core takes over the next one's number, page tables and stack.
unfoldable pub prepare : Sched → Regs → ℕ → Sched
unfolding init_address_space set_kernel_stack
prepare s regs next =
    let core = regs.core in
    let cpu = s.cpu_info core in
    let saved = save s.tasks cpu.current_task regs in
    let t = record (saved next) { idle_time = 0 } in
    record s {
      tasks = update saved next t;
      cpu_info = update s.cpu_info core (record cpu { current_task = some next });
      cr3 = update s.cr3 core (init_address_space s (s.cr3 core) t.pml4_index);
      rsp0 = set_kernel_stack s.rsp0 core t.kernel_stack;
    }

unfoldable pub switch_to : Sched → Regs → Option ℕ → Sched × Exit
switch_to s regs none = (s, return)
switch_to s regs (some next) = leave (prepare s regs next) next

unfoldable pub scheduler_main : Sched → Regs → Sched × Exit
scheduler_main s regs =
    let (tasks, next) = pick s.tasks s.number_of_tasks 0 0 none in
    let switched = switch_to (record s { tasks = tasks }) regs next in
    if s.number_of_tasks == 0 then (s, return) else switched
