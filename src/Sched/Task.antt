-- ===== src/Sched/Task.antt =====
-- kernel/sched/scheduler.h, smp.h and lib/libk/asmUtils.h: the records that the scheduler keeps.
use seaweed.Base.{ℕ, Option}

-- `regs_t`, what an interrupt pushes.
pub record Regs : Type 0 where
  pub r15 : ℕ
  pub r14 : ℕ
  pub r13 : ℕ
  pub r12 : ℕ
  pub r11 : ℕ
  pub r10 : ℕ
  pub r9 : ℕ
  pub r8 : ℕ
  pub rsi : ℕ
  pub rdi : ℕ
  pub rbp : ℕ
  pub rdx : ℕ
  pub rcx : ℕ
  pub rbx : ℕ
  pub rax : ℕ
  pub core : ℕ
  pub isr_number : ℕ
  pub error_code : ℕ
  pub rip : ℕ
  pub cs : ℕ
  pub rflags : ℕ
  pub rsp : ℕ
  pub ss : ℕ

-- The three values of the enumeration, and any other value of the byte, such as that of memory
-- which no task has used.
pub data Status : Type 0 where
  waiting_to_start running waiting other : Status

pub record Thread : Type 0 where
  pub status : Status
  pub regs : Regs
  pub kernel_stack : ℕ
  pub entry_point : ℕ
  pub idle_time : ℕ

-- `threads` is what the pointer of that name points at, and `threads_at` the pointer.
pub record Task : Type 0 where
  pub status : Status
  pub pml4_index : ℕ
  pub regs : Regs
  pub threads_at : ℕ
  pub threads : ℕ → Thread
  pub kernel_stack : ℕ
  pub entry_point : ℕ
  pub idle_time : ℕ
  pub number_of_threads : ℕ
  pub max_number_of_threads : ℕ

-- `cpuInfo_t`; a current task of `none` is the -1 of the source.
pub record CpuInfo : Type 0 where
  pub core_id : ℕ
  pub number_of_tasks : ℕ
  pub current_task : Option ℕ
