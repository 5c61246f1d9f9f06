-- ===== src/Tests/Creation.antt =====
-- createNewTask of kernel/sched/scheduler.c and the system call for a thread, on two cores.
use seaweed.Base.{ℕ, ◌+◌, ◌*◌, ◌<◌, ◌≡◌, ◌≢◌, refl, arith, ◌==◌, if◌then◌else◌}
use seaweed.Base.{none, some, sym, ◌∙◌, []}
use seaweed.Base.{}
use seaweed.Libk.Bitmap.{isset}
use seaweed.Mm.Layout.{pagesize}
use seaweed.Mm.Run.{first_free}
use seaweed.Mm.Run.Laws.{FreeRun}
use seaweed.Mm.Heap.{no_allocation, first_free_slot, first_free_allocation_slot, free_entry}
use seaweed.Mm.Paging.Walk.{translate}
use seaweed.Mm.Paging.Space.{find_first_free_slot, first_zero}
use seaweed.Sched.Task.{Regs, waiting_to_start, waiting, running, other}
use seaweed.Sched.Scheduler.{Sched, start_task, scheduler_main}
use seaweed.Sched.Scheduler.Invariant.{IsConsistent, current}
use seaweed.Sched.Create.{Kernel, create_new_task}
use seaweed.Sched.Create.NewTask.{IsPacked}
use seaweed.Sched.Create.Runs.{create_new_task_starts}
use seaweed.Sched.Create.Threads.{syscall_main}
use seaweed.Sched.Create.Replaced.{syscall_main_replaces}
use seaweed.Tests.Schedules.{regs_on, thread, task}
use seaweed.Tests.Spaces.{frames, pages, frames_used, frames_free}

-- Task 0 runs on core 1 and has a thread at place 2; task 1 waits.
abbrev pub two_tasks : Sched
two_tasks = record {
  tasks = λ i.
      if i == 0
      then record (task running 0x9000 0) {
        threads = λ j. if j == 2 then record thread { entry_point = 0x5000 } else thread;
      }
      else if i == 1
      then task waiting 0xa000 3
      else task other 0 0;
  number_of_tasks = 2;
  max_number_of_tasks = 10;
  cpu_info = λ c. record {
    core_id = c;
    number_of_tasks = 0;
    current_task = if c == 1 then some 0 else none;
  };
  pml4 = λ i. 0;
  page_directory_count = 3;
  cr3 = λ c. 0x200000;
  rsp0 = λ c. 0;
}

abbrev pub kernel : Kernel
kernel = record {
  sched = two_tasks;
  vmm = pages;
  frames = frames 0x228;
  heap = record {
    k_heap_begin = 0x124000;
    kbitmap = λ a. 0;
    kbitmap_size = 100;
    allocation_bitmap = λ i. no_allocation;
    allocation_bitmap_size = 4;
  };
  cells = λ a. 0;
}

running_task : (t : ℕ) → (two_tasks.tasks t).status ≡ running → t ≡ 0
running_task t e = ground arith

current_task : (c t : ℕ) → current two_tasks c ≡ some t → (c ≡ 1) × (t ≡ 0)
current_task c t e = ground arith

pub two_tasks-IsConsistent : IsConsistent two_tasks
two_tasks-IsConsistent = record {
  in_range = λ c t e. omega (arith, current_task c t e);
  runs = λ c t e. rw (current_task c t e).1 refl;
  alone = λ c d t e e'. (current_task c t e).0 ∙ sym (current_task d t e').0;
  owned = λ t lt e. (1, rw (running_task t e) refl);
  rested = λ t lt e. rw (running_task t e) refl;
}

pub two_tasks-IsPacked : IsPacked two_tasks
two_tasks-IsPacked = record { used = λ i lt e. ground arith; free = λ i lo hi. ground arith }

create_new_task_starts_example :
    (k' : Kernel) × (base : ℕ) × (create_new_task kernel
        (regs_on 0)
        (λ i. thread)
        0x23
        0x1ff0
        0x1b
        0x40
        2
      ≡ some k')
    × IsConsistent k'.sched
    × IsPacked k'.sched
    × ((j : ℕ) → j < 2 → k'.sched.tasks j ≡ two_tasks.tasks j)
    × FreeRun kernel.frames.bitmap base 2
    × (let (s, exit) = scheduler_main k'.sched (regs_on 0) in
        (exit ≡ start_task 0x23 0x1ff0 0x1b 0x40)
        × (current s 0 ≡ some 2)
        × (translate k'.vmm.words (s.cr3 0) 0x40 ≡ some (base * pagesize + 0x40)))
create_new_task_starts_example =
    create_new_task_starts kernel (regs_on 0) (λ i. thread) (λ w. 0) 0x23 0x1ff0 0x1b 0x40 2 0 0x228
      0 0 0x40 (regs_on 0) two_tasks-IsConsistent two_tasks-IsPacked (λ j lt e. ground arith)
      (λ j lt. ground arith) (omega arith) (omega arith)
      (unfold find_first_free_slot first_zero in refl)
      (unfold first_free_slot first_free isset in refl)
      (unfold first_free_allocation_slot free_entry in refl) (omega arith) (omega arith)
      (omega arith) (omega arith) (λ j lo hi. frames_free 0x228 j lo) (λ w lo hi. refl)
      (frames_used 0x228 0 (omega arith)) (λ j lo hi. frames_used 0x228 j (omega arith))
      (omega arith)

abbrev pthread_call : Regs
pthread_call = record (regs_on 1) { rax = 2; rcx = 0; rdx = 0; rbx = 0x7777 }

syscall_main_replaces_example :
    (k' : Kernel) × (syscall_main kernel (regs_on 1) (λ i. thread) pthread_call ≡ (some k', []))
    × (let t' = k'.sched.tasks 0 in
        ((t'.threads 2).status ≡ waiting_to_start)
        × ((t'.threads 2).entry_point ≡ 0x7777)
        × ((t'.threads 2).regs.cs ≡ 8)
        × ((t'.threads 2).regs.ss ≡ (two_tasks.tasks 0).regs.ss)
        × ((j : ℕ) → j ≢ 2 → t'.threads j ≡ (two_tasks.tasks 0).threads j))
    × ((j : ℕ) → j ≢ 0 → k'.sched.tasks j ≡ two_tasks.tasks j)
    × IsConsistent k'.sched
    × IsPacked k'.sched
syscall_main_replaces_example =
    syscall_main_replaces kernel (regs_on 1) (λ i. thread) pthread_call 2 two_tasks-IsConsistent
      two_tasks-IsPacked refl refl (omega arith) (omega arith) (omega arith) (λ j lt. ground arith)
      (omega arith)
