-- ===== src/Sched/Create/Replaced.antt =====
-- What the system call for a thread does to the tasks (kernel/int/syscall.c, createThread).
use seaweed.Base.{ℕ, zero, suc, ◌+◌, ◌%◌, ◌<◌, ◌≤◌, ◌≡◌, ◌≢◌, refl, arith, ◌==◌}
use seaweed.Base.{Bool-cases, inl, inr, some, sym, ap, ◌∙◌, []}
use seaweed.Base.{u64}
use seaweed.Sched.Task.{Regs, waiting_to_start, Task, Thread}
use seaweed.Sched.Scheduler.{Sched}
use seaweed.Sched.Scheduler.Invariant.{IsConsistent}
use seaweed.Sched.Create.{Kernel, set_regs}
use seaweed.Sched.Create.NewTask.{IsPacked}
use seaweed.Sched.Create.Threads.{
  find_thread, new_thread, count_thread, store_thread, create_thread, calls, pthread, syscall_main,
}

find_thread-first :
    (threads : ℕ → Thread) (left i p : ℕ)
    → i ≤ p
    → p < i + left
    → ((j : ℕ) → i ≤ j → j < p → (threads j).entry_point ≡ 0)
    → (threads p).entry_point ≢ 0
    → find_thread threads left i ≡ p
unfolding find_thread
find_thread-first threads zero i p lo hi before e = absurd (omega arith)
find_thread-first threads (suc left) i p lo hi before e = elim (Bool-cases (i == p)) [
  | inl is ↦
      let same : i ≡ p = ground arith in
      let busy : (threads i).entry_point ≢ 0 = rw same e in ground arith
  | inr off ↦
      let ih =
        find_thread-first threads left (i + 1) p (ground arith) (omega arith)
          (λ j a b. before j (omega arith) b) e in
      let empty = before i (omega arith) (ground arith) in ground (arith, ih, empty)
]

-- The two tasks are alike to the scheduler.
abbrev Alike : Task → Task → Type 0
Alike t u = (t.status ≡ u.status) × (t.idle_time ≡ u.idle_time) × (t.kernel_stack ≡ u.kernel_stack)

module _ (s : Sched) (tasks : ℕ → Task) (alike : (j : ℕ) → Alike (tasks j) (s.tasks j)) where
  abbrev changed : Sched
  changed = record s { tasks = tasks }

  Alike-IsConsistent : IsConsistent s → IsConsistent changed
  Alike-IsConsistent c = record {
    in_range = c.in_range;
    runs = λ k t e. (alike t).0 ∙ c.runs k t e;
    alone = c.alone;
    owned = λ t lt e. c.owned t lt (sym (alike t).0 ∙ e);
    rested = λ t lt e. (alike t).1 ∙ c.rested t lt (sym (alike t).0 ∙ e);
  }

  Alike-IsPacked : IsPacked s → IsPacked changed
  Alike-IsPacked p = record {
    used = λ i lt e. p.used i lt (sym (alike i).2 ∙ e);
    free = λ i lo hi. (alike i).2 ∙ p.free i lo hi;
  }

module _ (k : Kernel) (held : Regs) (moved : ℕ → Thread) (i entry_point : ℕ) where
  abbrev counted : Task
  counted =
      let t = k.sched.tasks i in record t { number_of_threads = u64 (t.number_of_threads + 1) }

  create_thread-some :
      i < k.sched.number_of_tasks
      → counted.number_of_threads % 10 ≢ 0
      → create_thread k held moved i entry_point ≡ some (store_thread k held i counted entry_point)
  unfolding create_thread count_thread
  create_thread-some lt few = ground arith

  abbrev stored : Kernel
  stored = store_thread k held i counted entry_point

  -- Only the threads of the task, and their number, change.
  stored-other : (j : ℕ) → j ≢ i → stored.sched.tasks j ≡ k.sched.tasks j
  stored-other j ne = unfold store_thread in ground arith

  stored-Alike : (j : ℕ) → Alike (stored.sched.tasks j) (k.sched.tasks j)
  stored-Alike j = elim (Bool-cases (j == i)) [
    | inl is ↦ let same : j ≡ i = ground arith in rw same (unfold store_thread in ground arith)
    | inr off ↦ rw (stored-other j (ground arith)) (refl, refl, refl)
  ]

  stored-IsConsistent : IsConsistent k.sched → IsConsistent stored.sched
  stored-IsConsistent c =
      unfold store_thread in Alike-IsConsistent k.sched _ (unfold store_thread in stored-Alike) c

  stored-IsPacked : IsPacked k.sched → IsPacked stored.sched
  stored-IsPacked c =
      unfold store_thread in Alike-IsPacked k.sched _ (unfold store_thread in stored-Alike) c

  module _ (p : ℕ) (fits : p < (k.sched.tasks i).max_number_of_threads)
      (before : (j : ℕ) → j < p → ((k.sched.tasks i).threads j).entry_point ≡ 0)
      (busy : ((k.sched.tasks i).threads p).entry_point ≢ 0) where
    place : find_thread counted.threads counted.max_number_of_threads 0 ≡ p
    place =
        find_thread-first (k.sched.tasks i).threads (k.sched.tasks i).max_number_of_threads 0 p
          (omega arith) (omega arith) (λ j _ below. before j below) busy

    stored-new :
        (((stored.sched.tasks i).threads p).status ≡ waiting_to_start)
        × (((stored.sched.tasks i).threads p).entry_point ≡ entry_point)
        × (((stored.sched.tasks i).threads p).regs.cs ≡ (k.sched.tasks i).regs.cs)
        × (((stored.sched.tasks i).threads p).regs.ss ≡ (k.sched.tasks i).regs.ss)
    stored-new = unfold store_thread new_thread set_regs in ground (arith, place)

    stored-old : (j : ℕ) → j ≢ p → (stored.sched.tasks i).threads j ≡ (k.sched.tasks i).threads j
    stored-old j ne = unfold store_thread in ground (arith, place)

syscall_main-pthread :
    (k : Kernel) (held : Regs) (moved : ℕ → Thread) (regs : Regs)
    → regs.rax ≡ calls
    → regs.rcx ≡ pthread
    → syscall_main k held moved regs ≡ (create_thread k held moved regs.rdx regs.rbx, [])
unfolding syscall_main
syscall_main-pthread k held moved regs e e' = ground arith

-- The call of PTHREAD on task `i`, where the count of its threads does not reach a multiple of ten and
-- `p` is the first place of a thread that has an entry point: the new thread, which waits to start at
-- `rbx` with the segments of the task, replaces that one. The other threads and tasks are as they
-- were, the tasks stay at the front of their array, and the cores stay matched.
pub syscall_main_replaces :
    (k : Kernel) (held : Regs) (moved : ℕ → Thread) (regs : Regs) (p : ℕ)
    → IsConsistent k.sched
    → IsPacked k.sched
    → regs.rax ≡ calls
    → regs.rcx ≡ pthread
    → regs.rdx < k.sched.number_of_tasks
    → let t = k.sched.tasks regs.rdx in
      (u64 (t.number_of_threads + 1) % 10 ≢ 0)
      → p < t.max_number_of_threads
      → ((j : ℕ) → j < p → (t.threads j).entry_point ≡ 0)
      → (t.threads p).entry_point ≢ 0
      → (k' : Kernel) × (syscall_main k held moved regs ≡ (some k', []))
        × (let t' = k'.sched.tasks regs.rdx in
            ((t'.threads p).status ≡ waiting_to_start)
            × ((t'.threads p).entry_point ≡ regs.rbx)
            × ((t'.threads p).regs.cs ≡ t.regs.cs)
            × ((t'.threads p).regs.ss ≡ t.regs.ss)
            × ((j : ℕ) → j ≢ p → t'.threads j ≡ t.threads j))
        × ((j : ℕ) → j ≢ regs.rdx → k'.sched.tasks j ≡ k.sched.tasks j)
        × IsConsistent k'.sched
        × IsPacked k'.sched
syscall_main_replaces k held moved regs p c packed is_calls is_pthread lt few fits before busy =
    let fresh = stored-new k held moved regs.rdx regs.rbx p fits before busy in
    (
      stored k held moved regs.rdx regs.rbx,
      syscall_main-pthread k held moved regs is_calls is_pthread
          ∙ ap (λ k'. (k', [])) (create_thread-some k held moved regs.rdx regs.rbx lt few),
      (
        fresh.0,
        fresh.1,
        fresh.2,
        fresh.3,
        stored-old k held moved regs.rdx regs.rbx p fits before busy,
      ),
      stored-other k held moved regs.rdx regs.rbx,
      stored-IsConsistent k held moved regs.rdx regs.rbx c,
      stored-IsPacked k held moved regs.rdx regs.rbx packed,
    )
