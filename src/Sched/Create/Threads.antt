-- ===== src/Sched/Create/Threads.antt =====
-- kernel/sched/scheduler.c: createThread, and kernel/int/syscall.c, which calls it.
use seaweed.Base.{ℕ, zero, suc, ◌+◌, ◌%◌, ◌==◌, if◌then◌else◌, ltb}
use seaweed.Base.{◌&&◌, Option, none, some, List, [], ◌∷◌}
use seaweed.Base.{u8, u64, update}
use seaweed.Mm.Layout.{high_vma}
use seaweed.Mm.Frames.{physical_page_alloc}
use seaweed.Mm.Heap.{fault, krealloc, address}
use seaweed.Sched.Task.{Regs, waiting_to_start, Task, Thread}
use seaweed.Sched.Create.{Kernel, set_regs}

-- The loop that looks for the thread's place: it stops at the first thread that has an entry point,
-- and leaves 0 where none has.
unfoldable pub find_thread : (ℕ → Thread) → ℕ → ℕ → ℕ
find_thread threads zero i = 0
find_thread threads (suc left) i =
    let rest = find_thread threads left (i + 1) in if (threads i).entry_point == 0 then rest else i

-- `thread`, with its two stacks; `held` is what the local `regs` holds.
unfoldable pub new_thread : Regs → Task → ℕ → ℕ → ℕ → Thread
new_thread held t stack kernel_stack entry_point = record {
  status = waiting_to_start;
  regs = set_regs held t.regs.ss (u64 (stack + 0x2000)) t.regs.cs;
  kernel_stack = u64 (kernel_stack + 0x2000 + high_vma);
  entry_point = entry_point;
  idle_time = 0;
}

-- The block that `krealloc` answers with holds what it holds, `moved`. The new size is the number of
-- threads and ten, in bytes.
unfoldable pub grow_threads : Kernel → (ℕ → Thread) → Task → Option (Kernel × Task)
grow_threads k moved t =
    let (heap, cells, p) = krealloc k.heap k.cells t.threads_at (u64 (t.number_of_threads + 10)) in
    let grown = record t { threads_at = address p; threads = moved } in
    elim p [ fault ↦ none | _ ↦ some (record k { heap = heap; cells = cells }, grown) ]

unfoldable pub count_thread : Kernel → (ℕ → Thread) → Task → Option (Kernel × Task)
count_thread k moved t =
    let counted = record t { number_of_threads = u64 (t.number_of_threads + 1) } in
    if counted.number_of_threads % 10 == 0 then grow_threads k moved counted else some (k, counted)

-- The thread's stacks are allocated, and it is stored.
unfoldable pub store_thread : Kernel → Regs → ℕ → Task → ℕ → Kernel
store_thread k held task_index t entry_point =
    let i = find_thread t.threads t.max_number_of_threads 0 in
    let (f1, stack) = physical_page_alloc k.frames 2 in
    let (f2, kernel_stack) = physical_page_alloc f1 2 in
    let thread = new_thread held t stack kernel_stack entry_point in
    let stored = record t { threads = update t.threads i thread } in
    record k {
      sched = record k.sched { tasks = update k.sched.tasks task_index stored };
      frames = f2;
    }

-- `none` is an access at index -1 in `krealloc`.
unfoldable pub create_thread : Kernel → Regs → (ℕ → Thread) → ℕ → ℕ → Option Kernel
create_thread k held moved task_index entry_point =
    let counted = count_thread k moved (k.sched.tasks task_index) in
    let done : Option Kernel = elim counted [
      | none ↦ none
      | some (k', t) ↦ some (store_thread k' held task_index t entry_point)
    ] in
    if ltb task_index k.sched.number_of_tasks then done else some k

-- `OUTPUT`, `INPUT`, `CALLS`; `SERIAL`, `VIDEO`; `PTHREAD`
abbrev pub output : ℕ
output = 0

abbrev pub input : ℕ
input = 1

abbrev pub calls : ℕ
calls = 2

abbrev pub serial : ℕ
serial = 0

abbrev pub video : ℕ
video = 1

abbrev pub pthread : ℕ
pthread = 0

-- `syscallMain`: the kernel after the call, and the bytes sent to the serial port. It holds its lock
-- from its first statement to its last.
unfoldable pub syscall_main : Kernel → Regs → (ℕ → Thread) → Regs → Option Kernel × List ℕ
syscall_main k held moved regs =
    if regs.rax == output
    then (some k, if regs.rcx == serial then u8 regs.rdx ∷ [] else [])
    else if regs.rax == calls && regs.rcx == pthread
    then (create_thread k held moved regs.rdx regs.rbx, [])
    else (some k, [])
