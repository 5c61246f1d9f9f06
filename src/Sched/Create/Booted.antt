-- ===== src/Sched/Create/Booted.antt =====
-- The tasks that the calls at the end of bootMain (kernel/kernelMain.c) create, and their spaces.
use seaweed.Base.{ℕ, zero, suc, ◌+◌, ◌<◌, ◌≤◌, ◌≡◌, ◌≢◌, refl, arith, ltb}
use seaweed.Base.{Bool-cases, inl, inr, some, sym, ◌∙◌, List, [], ◌∷◌}
use seaweed.Base.{length, get_elem?}
use seaweed.Mm.Run.Laws.{FreeRun}
use seaweed.Mm.Paging.{Words}
use seaweed.Mm.Paging.Kernel.{KernelTables}
use seaweed.Mm.Paging.Space.Taken.{Later-free, differ}
use seaweed.Mm.Paging.Space.Isolated.{
  LeadsToOwn, LeadsAsKernel, ShareNoPage, root_of, Placed-LeadsToOwn, Placed-ShareNoPage,
}
use seaweed.Mm.Paging.Space.Placed.{Placed, translate-kernel}
use seaweed.Sched.Task.{waiting_to_start, Task}
use seaweed.Sched.Scheduler.Invariant.{IsConsistent}
use seaweed.Sched.Create.{Kernel}
use seaweed.Sched.Create.NewTask.{IsPacked}
use seaweed.Sched.Create.Booting.{TaskCall, create_tasks, CanCreate}
use seaweed.Sched.Create.Step.{OneTask, create_task-OneTask}

-- The pages that the calls take: those of the spaces, four for the tables of each, two for the stack in
-- the kernel and one for the task's own.
abbrev pub task_pages : List TaskCall → ℕ
task_pages [] = 0
task_pages (t ∷ ts) = t.page_cnt + 7 + task_pages ts

abbrev pub AllFit : List TaskCall → Type 0
AllFit [] = Unit
AllFit (t ∷ ts) = (0 < t.page_cnt) × (t.page_cnt ≤ 512) × AllFit ts

-- The task is as the call asked for, with the space in the slot.
abbrev pub Stands : Task → TaskCall → ℕ → Type 0
Stands new t slot =
    (new.pml4_index ≡ slot)
    × (new.entry_point ≡ t.entry_point)
    × (new.status ≡ waiting_to_start)
    × (new.regs.cs ≡ t.cs)
    × (new.regs.ss ≡ t.ss)

record Created (m0 : Words) (k : Kernel) (index : ℕ) (ts : List TaskCall) : Type 0 where
  pub after : Kernel
  pub bases : ℕ → ℕ
  pub made : create_tasks k ts ≡ some after
  pub kernel : KernelTables m0 after.vmm.words
  pub consistent : IsConsistent after.sched
  pub packed : IsPacked after.sched
  pub number : after.sched.number_of_tasks ≡ k.sched.number_of_tasks + length ts
  pub placed :
      (i : ℕ) (t : TaskCall)
      → get_elem? ts i ≡ some t
      → Placed after.vmm after.frames (index + i) t.page_cnt (bases i)
  pub stands :
      (i : ℕ) (t : TaskCall)
      → get_elem? ts i ≡ some t
      → Stands (after.sched.tasks (k.sched.number_of_tasks + i)) t (index + i)
  pub older :
      (slot size base : ℕ)
      → slot < index
      → Placed k.vmm k.frames slot size base
      → Placed after.vmm after.frames slot size base
  pub old : (j : ℕ) → j < k.sched.number_of_tasks → after.sched.tasks j ≡ k.sched.tasks j
  pub were_free :
      (i : ℕ) (t : TaskCall)
      → get_elem? ts i ≡ some t
      → FreeRun k.frames.bitmap (bases i) t.page_cnt
  pub apart :
      (i j a b : ℕ) (t u : TaskCall)
      → i < j
      → get_elem? ts i ≡ some t
      → get_elem? ts j ≡ some u
      → a < t.page_cnt
      → b < u.page_cnt
      → bases i + a ≢ bases j + b

task_bases : ℕ → (ℕ → ℕ) → ℕ → ℕ
task_bases base rest zero = base
task_bases base rest (suc i) = rest i

module _ (m0 : Words) (k : Kernel) (index r n : ℕ) (t : TaskCall) (ts : List TaskCall)
    (s : OneTask m0 k t index r n (length ts)) (rest : Created m0 s.after (index + 1) ts) where
  all_bases : ℕ → ℕ
  all_bases = task_bases s.base rest.bases

  placed_all :
      (i : ℕ) (u : TaskCall)
      → get_elem? (t ∷ ts) i ≡ some u
      → Placed rest.after.vmm rest.after.frames (index + i) u.page_cnt (all_bases i)
  unfolding all_bases task_bases
  placed_all zero u is =
      let at : index + 0 ≡ index = omega arith in
      let same : t ≡ u = ground arith in
      rw (at, sym same) (rest.older index t.page_cnt s.base (omega arith) s.placed)
  placed_all (suc i) u is =
      let at : index + suc i ≡ index + 1 + i = omega arith in rw at (rest.placed i u is)

  tasks_all :
      (i : ℕ) (u : TaskCall)
      → get_elem? (t ∷ ts) i ≡ some u
      → Stands (rest.after.sched.tasks (k.sched.number_of_tasks + i)) u (index + i)
  tasks_all zero u is =
      let at : index + 0 ≡ index = omega arith in
      let here : k.sched.number_of_tasks + 0 ≡ k.sched.number_of_tasks = omega arith in
      let same : t ≡ u = ground arith in
      let kept = rest.old k.sched.number_of_tasks (omega (arith, s.number)) in
      rw (at, here, sym same, kept) s.stands
  tasks_all (suc i) u is =
      let at : index + suc i ≡ index + 1 + i = omega arith in
      let here : k.sched.number_of_tasks + suc i ≡ s.after.sched.number_of_tasks + i =
        omega (arith, s.number) in
      rw (at, here) (rest.stands i u is)

  free_all :
      (i : ℕ) (u : TaskCall)
      → get_elem? (t ∷ ts) i ≡ some u
      → FreeRun k.frames.bitmap (all_bases i) u.page_cnt
  unfolding all_bases task_bases
  free_all zero u is = let same : t ≡ u = ground arith in rw (sym same) s.free_pages
  free_all (suc i) u is = λ j lo hi. Later-free j s.later (rest.were_free i u is j lo hi)

  apart_all :
      (i j a b : ℕ) (u w : TaskCall)
      → i < j
      → get_elem? (t ∷ ts) i ≡ some u
      → get_elem? (t ∷ ts) j ≡ some w
      → a < u.page_cnt
      → b < w.page_cnt
      → all_bases i + a ≢ all_bases j + b
  unfolding all_bases task_bases
  apart_all i zero a b u w lt is at a_in b_in = absurd (omega arith)
  apart_all zero (suc j) a b u w lt is at a_in b_in =
      let same : t ≡ u = ground arith in
      let a_here : a < t.page_cnt = rw same a_in in
      differ s.after.frames (s.base + a) (rest.bases j + b)
        (s.placed.used_pages (s.base + a) (omega arith) (omega arith))
        (rest.were_free j w at (rest.bases j + b) (omega arith) (omega arith))
  apart_all (suc i) (suc j) a b u w lt is at a_in b_in =
      rest.apart i j a b u w (omega arith) is at a_in b_in

  Created-cons : Created m0 k index (t ∷ ts)
  Created-cons = record {
    after = rest.after;
    bases = all_bases;
    made = unfold create_tasks in rw (s.made, rest.made) refl;
    kernel = rest.kernel;
    consistent = rest.consistent;
    packed = rest.packed;
    number = omega (arith, rest.number, s.number);
    placed = placed_all;
    stands = tasks_all;
    older = λ slot size base below p.
        rest.older slot size base (omega arith) (s.keeps slot size base (omega arith) p);
    old = λ j lt. rest.old j (omega (arith, s.number)) ∙ s.old j lt;
    were_free = free_all;
    apart = apart_all;
  }

create_tasks-Created :
    (m0 : Words) (k : Kernel) (ts : List TaskCall) (index r : ℕ)
    → AllFit ts
    → index + length ts ≤ k.vmm.page_directory_count
    → CanCreate m0 k index r (task_pages ts) (length ts)
    → Created m0 k index ts
create_tasks-Created m0 k [] index r fit slots can = record {
  after = k;
  bases = λ i. 0;
  made = unfold create_tasks in refl;
  kernel = can.spaces.kernel;
  consistent = can.consistent;
  packed = can.packed;
  number = omega arith;
  placed = λ i t is. absurd (cc);
  stands = λ i t is. absurd (cc);
  older = λ slot size base below p. p;
  old = λ j lt. refl;
  were_free = λ i t is. absurd (cc);
  apart = λ i j a b t u lt is. absurd (cc);
}
create_tasks-Created m0 k (t ∷ ts) index r (pos, few, fit) slots can =
    let s =
      create_task-OneTask m0 k t index r (task_pages ts) (length ts) (omega arith) pos few can in
    Created-cons m0 k index r (task_pages ts) t ts s (
      create_tasks-Created m0 s.after ts (index + 1) (r + (t.page_cnt + 7)) fit
        (omega (arith, s.same_count)) s.next)

bytes_apart :
    {m0 : Words} {k : Kernel} {index : ℕ} {ts : List TaskCall} (s : Created m0 k index ts)
    (i j a b : ℕ) (t u : TaskCall)
    → i ≢ j
    → get_elem? ts i ≡ some t
    → get_elem? ts j ≡ some u
    → a < t.page_cnt
    → b < u.page_cnt
    → s.bases i + a ≢ s.bases j + b
bytes_apart s i j a b t u ne is at a_in b_in = elim (Bool-cases (ltb i j)) [
  | inl lt ↦ s.apart i j a b t u (ground arith) is at a_in b_in
  | inr ge ↦ λ e. s.apart j i b a u t (ground arith) at is b_in a_in (sym e)
]

-- The root of the tables of the i-th of the tasks behind those of `k`.
abbrev pub task_root : Kernel → Kernel → ℕ → ℕ
task_root k k' i = root_of k'.vmm (k'.sched.tasks (k.sched.number_of_tasks + i)).pml4_index

-- The new tasks of a list stand in order, each with a space of its own.
pub record AllStand (k k' : Kernel) (index : ℕ) (ts : List TaskCall) : Type 0 where
  pub stands :
      (i : ℕ) (t : TaskCall)
      → get_elem? ts i ≡ some t
      → Stands (k'.sched.tasks (k.sched.number_of_tasks + i)) t (index + i)
  pub own :
      (i : ℕ) (t : TaskCall)
      → get_elem? ts i ≡ some t
      → LeadsToOwn k.frames k'.vmm k'.frames (task_root k k' i) t.page_cnt
  pub kernel :
      (i : ℕ) (t : TaskCall) → get_elem? ts i ≡ some t → LeadsAsKernel k'.vmm (task_root k k' i)
  pub apart :
      (i j : ℕ) (t u : TaskCall)
      → i ≢ j
      → get_elem? ts i ≡ some t
      → get_elem? ts j ≡ some u
      → ShareNoPage k'.vmm (task_root k k' i) t.page_cnt (task_root k k' j) u.page_cnt

-- The calls of createNewTask that bootMain makes for a list of tasks of 1 to 512 pages, each with a
-- page for its stack, each call taken as one step with no schedulerMain within it, where the slots
-- from `index` on and a run of pages long enough for all of them are free, below 2^46 bytes of
-- memory, the heap answers the call of each without a fault, cores and tasks are matched and the
-- tasks stand at the front of their array, which has less than 2^64 places, with room behind them,
-- the kernel's tables stand, and page 0 and their pages are in use: all calls succeed, cores and
-- tasks stay matched, and the tasks stand behind those before, in order, with their entry points and
-- segments, waiting to start; the tables of each lead every address below the size of its space to
-- a page that was free before and is in use now, and the kernel's addresses to where the kernel's
-- tables do; and no page that two of them lead such addresses to is the same. This says nothing of
-- the addresses above the size, which the tables that are not zeroed lead wherever their old words
-- do, and through the kernel's addresses every task's tables reach all low memory.
pub create_tasks_isolated :
    (m0 : Words) (k : Kernel) (ts : List TaskCall) (index r : ℕ)
    → AllFit ts
    → index + length ts ≤ k.vmm.page_directory_count
    → CanCreate m0 k index r (task_pages ts) (length ts)
    → (k' : Kernel) × (create_tasks k ts ≡ some k')
      × IsConsistent k'.sched
      × IsPacked k'.sched
      × (k'.sched.number_of_tasks ≡ k.sched.number_of_tasks + length ts)
      × AllStand k k' index ts
create_tasks_isolated m0 k ts index r fit slots can =
    let s = create_tasks-Created m0 k ts index r fit slots can in
    (
      s.after,
      s.made,
      s.consistent,
      s.packed,
      s.number,
      record {
        stands = s.stands;
        own = λ i t is.
            rw ((s.stands i t is).0) (
              Placed-LeadsToOwn k.frames (s.placed i t is) (λ x lo hi. s.were_free i t is x lo hi));
        kernel = λ i t is kva kva_in.
            rw ((s.stands i t is).0) (translate-kernel (s.placed i t is) m0 kva s.kernel kva_in);
        apart = λ i j t u ne is at.
            rw ((s.stands i t is).0, (s.stands j u at).0)
              (Placed-ShareNoPage (s.placed i t is) (s.placed j u at)
                (λ a b a_in b_in. bytes_apart s i j a b t u ne is at a_in b_in));
      },
    )
