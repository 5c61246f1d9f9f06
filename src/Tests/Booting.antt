-- ===== src/Tests/Booting.antt =====
-- The six calls of createNewTask at the end of bootMain (kernel/kernelMain.c), on two cores.
use seaweed.Base.{ℕ, zero, suc, ◌+◌, ◌*◌, ◌≡◌, ◌≢◌, refl, arith}
use seaweed.Base.{some, List}
use seaweed.Base.{length}
use seaweed.Libk.Bitmap.{isset, set}
use seaweed.Mm.Run.{first_free, search, set_range}
use seaweed.Mm.Heap.{
  Heap, kmalloc, take_from, take_found, take_run, no_allocation, fault, first_free_slot,
  first_free_allocation_slot, free_entry,
}
use seaweed.Mm.Paging.Space.Sequence.{Ready}
use seaweed.Sched.Scheduler.Invariant.{IsConsistent}
use seaweed.Sched.Create.{Kernel, thread_size}
use seaweed.Sched.Create.NewTask.{IsPacked}
use seaweed.Sched.Create.Starts.{kmalloc-answers}
use seaweed.Sched.Create.Booting.{TaskCall, create_tasks, boot_tasks, Answers, CanCreate}
use seaweed.Sched.Create.Booted.{AllStand, create_tasks_isolated}
use seaweed.Tests.Schedules.{regs_on, thread}
use seaweed.Tests.Spaces.{pages, frames_used, frames_free}
use seaweed.Tests.Creation.{kernel, two_tasks-IsConsistent, two_tasks-IsPacked}

abbrev booting : Kernel
booting = record kernel {
  vmm = record pages { page_directory_count = 6 };
  heap = record {
    k_heap_begin = 0x124000;
    kbitmap = λ a. 0;
    kbitmap_size = 420;
    allocation_bitmap = λ i. no_allocation;
    allocation_bitmap_size = 8;
  };
}

abbrev calls : List TaskCall
calls = boot_tasks (λ n. 0xffffffff80002000 + n * 0x100) (λ n. regs_on 0) (λ n i. thread)

abbrev heap_of : ℕ → Heap
heap_of zero = booting.heap
heap_of (suc n) = (kmalloc (heap_of n) (thread_size * 10)).0

answers :
    (n b e : ℕ)
    → first_free_slot (heap_of n) ≡ some b
    → first_free_allocation_slot (heap_of n) ≡ some e
    → (kmalloc (heap_of n) (thread_size * 10)).1 ≢ fault
answers n b e = kmalloc-answers (heap_of n) (thread_size * 10) b e

heap-Answers : Answers 6 booting.heap
heap-Answers =
    unfold kmalloc take_from take_found take_run search set_range first_free_slot
      first_free_allocation_slot free_entry first_free isset set in
    (
      answers 0 0 0 refl refl,
      (
        answers 1 68 1 refl refl,
        (
          answers 2 136 2 refl refl,
          (answers 3 204 3 refl refl, (answers 4 272 4 refl refl, (answers 5 340 5 refl refl, tt))),
        ),
      ),
    )

booting-Ready : Ready (λ w. 0) booting.vmm booting.frames 0 0x228 87
booting-Ready = record {
  slots = record { taken = λ j lt. absurd (omega arith); free = λ j lo hi. refl };
  memory = omega arith;
  fits = omega arith;
  run = λ j lo hi. frames_free 0x228 j lo;
  kernel = λ w lo hi. refl;
  first_used = frames_used 0x228 0 (omega arith);
  kernel_used = λ j lo hi. frames_used 0x228 j (omega arith);
}

booting-CanCreate : CanCreate (λ w. 0) booting 0 0x228 87 6
booting-CanCreate = record {
  spaces = booting-Ready;
  memory = omega arith;
  consistent = two_tasks-IsConsistent;
  packed = two_tasks-IsPacked;
  room = omega arith;
  max_word = omega arith;
  heap = heap-Answers;
}

abbrev task1 : TaskCall
task1 = record {
  ss = 0x10;
  cs = 0x8;
  entry_point = 0xffffffff80002100;
  page_cnt = 10;
  held = regs_on 0;
  unset = λ i. thread;
}

abbrev task6 : TaskCall
task6 = record {
  ss = 0x23;
  cs = 0x1b;
  entry_point = 0xffffffff80002600;
  page_cnt = 5;
  held = regs_on 0;
  unset = λ i. thread;
}

create_tasks_isolated_example :
    (k' : Kernel) × (create_tasks booting calls ≡ some k')
    × IsConsistent k'.sched
    × IsPacked k'.sched
    × (k'.sched.number_of_tasks ≡ 2 + length calls)
    × AllStand booting k' 0 calls
unfolding boot_tasks
create_tasks_isolated_example =
    create_tasks_isolated (λ w. 0) booting calls 0 0x228
      (
        omega arith,
        omega arith,
        (
          omega arith,
          omega arith,
          (
            omega arith,
            omega arith,
            (omega arith, omega arith, (omega arith, omega arith, (omega arith, omega arith, tt))),
          ),
        ),
      )
      (omega arith) booting-CanCreate
