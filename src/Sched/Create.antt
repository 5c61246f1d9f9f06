-- ===== src/Sched/Create.antt =====
-- kernel/sched/scheduler.c: createNewTask, createThread and findFreeIndex, on the address spaces,
-- the pages and the heap that they take from. The memory behind `tasks` is an array without a bound.
pub mod NewTask
pub mod Starts
pub mod Runs
pub mod Booting
pub mod Step
pub mod Booted
pub mod Threads
pub mod Replaced
use seaweed.Base.{
  ℕ, zero, suc, ◌+◌, ◌-◌, ◌*◌, ◌/◌, ◌%◌, ◌^◌, ◌<◌, ◌≤◌, ◌≡◌, ◌≢◌, refl, arith, ◌==◌, if◌then◌else◌,
  Bool, true, false, ltb, leb, ==_iff, ltb→lt, leb→le, lt→ltb,
}
use seaweed.Base.{
  Bool-cases, Option-cases, inl, inr, ◌⊎◌, ◌↔◌, not, ◌&&◌, ◌||◌, Option, none, some, sym, ap, ◌∙◌,
  List, [], ◌∷◌, ◌++◌, map,
}
use seaweed.Base.{
  u8, u16, u32, u64, ◌<<<◌, ◌>>>◌, bit_and, bit_or, bit_xor, not32, length, get_elem?, get_or, take,
  drop, replicate, update,
}
use seaweed.Libk.Memory.{Cells}
use seaweed.Mm.Layout.{high_vma}
use seaweed.Mm.Frames.{Frames, physical_page_alloc}
use seaweed.Mm.Heap.{Heap, Pointer, null, fault, at, kmalloc, krealloc, address}
use seaweed.Mm.Paging.{PageDirectoryEntry, Vmm}
use seaweed.Mm.Paging.Space.{first_zero, create_new_address_space}
use seaweed.Sched.Task.{Regs, Status, waiting_to_start, Task, Thread}
use seaweed.Sched.Scheduler.{Sched}

-- The globals of the four files. The scheduler's view of the address spaces is that of `vmm`.
pub record Kernel : Type 0 where
  pub sched : Sched
  pub vmm : Vmm
  pub frames : Frames
  pub heap : Heap
  pub cells : Cells

-- `sizeof(thread_t)`
abbrev pub thread_size : ℕ
thread_size = 216

-- `none` is the -1 of the source.
unfoldable pub find_free_index : Sched → Option ℕ
find_free_index s = first_zero (λ i. (s.tasks i).kernel_stack) s.max_number_of_tasks 0

-- The scheduler sees the address spaces as they are now.
unfoldable pub see_spaces : Sched → Vmm → Sched
see_spaces s v = record s {
  pml4 = λ i. (v.page_directory_tables i).pml4;
  page_directory_count = v.page_directory_count;
}

-- `regs`, a local variable: what is not assigned is what the stack held.
unfoldable pub set_regs : Regs → ℕ → ℕ → ℕ → Regs
set_regs held ss rsp cs = record held { rsp = rsp; ss = ss; cs = cs }

-- `newTask`; `unset` is what the heap's memory for the threads holds.
unfoldable pub new_task : Regs → (ℕ → Thread) → ℕ → ℕ → ℕ → ℕ → Task
new_task regs unset pml4_index threads_at stack entry_point = record {
  status = waiting_to_start;
  pml4_index = pml4_index;
  regs = regs;
  threads_at = threads_at;
  threads = unset;
  kernel_stack = u64 (stack + 0x2000 + high_vma);
  entry_point = entry_point;
  idle_time = 0;
  number_of_threads = 0;
  max_number_of_threads = 10;
}

-- The task is stored, and counted.
unfoldable pub add_task : Sched → ℕ → Task → Sched
add_task s index t = record s {
  tasks = update s.tasks index t;
  number_of_tasks = u64 (s.number_of_tasks + 1);
}

-- With the address space in slot `pml4_index` made: the threads' memory, the stack and the task.
unfoldable pub finish_task : Kernel → Regs → (ℕ → Thread) → ℕ → ℕ → ℕ → Option Kernel
finish_task k regs unset entry_point index pml4_index =
    let (heap, threads) = kmalloc k.heap (thread_size * 10) in
    let (frames, stack) = physical_page_alloc k.frames 2 in
    let t = new_task regs unset pml4_index (address threads) stack entry_point in
    let done = record k {
      sched = add_task (see_spaces k.sched k.vmm) index t;
      frames = frames;
      heap = heap;
    } in
    elim threads [ fault ↦ none | _ ↦ some done ]

-- `none` is an access at index -1: where no slot for the task is free, as the array that has grown is
-- still written at -1, or none for its address space, or where `kmalloc` runs into one.
unfoldable pub create_new_task : Kernel → Regs → (ℕ → Thread) → ℕ → ℕ → ℕ → ℕ → ℕ → Option Kernel
create_new_task k held unset ss rsp cs entry_point page_cnt = elim (find_free_index k.sched) [
  | none ↦ none
  | some index ↦ elim (create_new_address_space k.vmm k.frames page_cnt (bit_or (1 <<< 2) 0x3)) [
    | none ↦ none
    | some (vmm, frames, pml4_index) ↦
        finish_task (record k { vmm = vmm; frames = frames }) (set_regs held ss rsp cs) unset
          entry_point index pml4_index
  ]
]
