-- ===== src/Sched/Create/Booting.antt =====
-- kernel/kernelMain.c: the calls of createNewTask at the end of bootMain, each with a page for its
-- stack, and what one of them does.
use seaweed.Base.{ℕ, zero, suc, ◌+◌, ◌*◌, ◌^◌, ◌<◌, ◌≤◌, ◌≢◌, arith}
use seaweed.Base.{Option, some, ◌>>=◌, List, [], ◌∷◌}
use seaweed.Base.{u64}
use seaweed.Mm.Layout.{high_vma}
use seaweed.Mm.Run.Laws.{FreeRun}
use seaweed.Mm.Frames.{Frames, page_count, physical_page_alloc}
use seaweed.Mm.Heap.{Heap, fault, kmalloc}
use seaweed.Mm.Paging.{Words, Vmm}
use seaweed.Mm.Paging.Space.Taken.{Later}
use seaweed.Mm.Paging.Space.Placed.{Placed}
use seaweed.Mm.Paging.Space.Sequence.{Ready}
use seaweed.Sched.Task.{Regs, Thread}
use seaweed.Sched.Scheduler.Invariant.{IsConsistent}
use seaweed.Sched.Create.{Kernel, thread_size, create_new_task}
use seaweed.Sched.Create.NewTask.{IsPacked}

-- The arguments of a call, and what the stack of bootMain and the heap hold where the call finds its
-- variable `regs` and the threads.
pub record TaskCall : Type 0 where
  pub ss : ℕ
  pub cs : ℕ
  pub entry_point : ℕ
  pub page_cnt : ℕ
  pub held : Regs
  pub unset : ℕ → Thread

unfoldable pub create_task : Kernel → TaskCall → Option Kernel
create_task k t =
    let (frames, stack) = physical_page_alloc k.frames 1 in
    create_new_task (record k { frames = frames }) t.held t.unset t.ss
      (u64 (stack + high_vma + 0x1000)) t.cs t.entry_point t.page_cnt

unfoldable pub create_tasks : Kernel → List TaskCall → Option Kernel
create_tasks k [] = some k
create_tasks k (t ∷ ts) = do k' ← create_task k t; create_tasks k' ts

-- The six calls of bootMain; `task` are the addresses of task1 to task6.
unfoldable pub boot_tasks : (ℕ → ℕ) → (ℕ → Regs) → (ℕ → ℕ → Thread) → List TaskCall
boot_tasks task held unset =
    record {
      ss = 0x10;
      cs = 0x8;
      entry_point = task 1;
      page_cnt = 10;
      held = held 1;
      unset = unset 1;
    }
    ∷ record {
      ss = 0x23;
      cs = 0x1b;
      entry_point = task 2;
      page_cnt = 9;
      held = held 2;
      unset = unset 2;
    }
    ∷ record {
      ss = 0x23;
      cs = 0x1b;
      entry_point = task 3;
      page_cnt = 8;
      held = held 3;
      unset = unset 3;
    }
    ∷ record {
      ss = 0x23;
      cs = 0x1b;
      entry_point = task 4;
      page_cnt = 7;
      held = held 4;
      unset = unset 4;
    }
    ∷ record {
      ss = 0x23;
      cs = 0x1b;
      entry_point = task 5;
      page_cnt = 6;
      held = held 5;
      unset = unset 5;
    }
    ∷ record {
      ss = 0x23;
      cs = 0x1b;
      entry_point = task 6;
      page_cnt = 5;
      held = held 6;
      unset = unset 6;
    }
    ∷ []

-- The heap answers as many calls of kmalloc for the threads of a task.
abbrev pub Answers : ℕ → Heap → Type 0
Answers zero h = Unit
Answers (suc n) h =
    ((kmalloc h (thread_size * 10)).1 ≢ fault) × Answers n (kmalloc h (thread_size * 10)).0

-- What `c` calls need that take `n` pages from `r` on.
pub record CanCreate (m0 : Words) (k : Kernel) (index r n c : ℕ) : Type 0 where
  pub spaces : Ready m0 k.vmm k.frames index r n
  pub memory : k.frames.total_detected_memory < 2 ^ 46
  pub consistent : IsConsistent k.sched
  pub packed : IsPacked k.sched
  pub room : k.sched.number_of_tasks + c ≤ k.sched.max_number_of_tasks
  pub max_word : k.sched.max_number_of_tasks < 2 ^ 64
  pub heap : Answers c k.heap

-- Pages in use later stand for the same spaces.
pub Placed-Later :
    {v : Vmm} {f g : Frames} {slot size base : ℕ}
    → Later f g
    → Placed v f slot size base
    → Placed v g slot size base
Placed-Later l p = record {
  p4 = p.p4;
  p3 = p.p3;
  p2 = p.p2;
  p1 = p.p1;
  root = p.root;
  links = p.links;
  used4 = l.keeps p.p4 p.used4;
  used3 = l.keeps p.p3 p.used3;
  used2 = l.keeps p.p2 p.used2;
  used1 = l.keeps p.p1 p.used1;
  used_pages = λ j lo hi. l.keeps j (p.used_pages j lo hi);
  below4 = p.below4;
  below3 = p.below3;
  below2 = p.below2;
  below1 = p.below1;
  below = p.below;
  few = p.few;
}

pub Ready-Later :
    {m0 : Words} {v : Vmm} {f g : Frames} {index r n r' n' : ℕ}
    → Ready m0 v f index r n
    → Later f g
    → r' + n' ≤ page_count g
    → FreeRun g.bitmap r' n'
    → Ready m0 v g index r' n'
Ready-Later ready l fits run = record {
  slots = ready.slots;
  memory = omega (arith, ready.memory, l.same_size);
  fits = fits;
  run = run;
  kernel = ready.kernel;
  first_used = l.keeps 0 ready.first_used;
  kernel_used = λ j lo hi. l.keeps j (ready.kernel_used j lo hi);
}
