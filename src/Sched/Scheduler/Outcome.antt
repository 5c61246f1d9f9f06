-- ===== src/Sched/Scheduler/Outcome.antt =====
-- What a call of `schedulerMain` does on every path, and that it keeps cores and tasks matched.
use seaweed.Base.{ℕ, ◌+◌, ◌^◌, ◌<◌, ◌≤◌, ◌≡◌, ◌≢◌, refl, arith, ◌==◌, false, ltb}
use seaweed.Base.{Bool-cases, inl, inr, ◌⊎◌, Option, none, some, sym, ap, ◌∙◌}
use seaweed.Base.{}
use seaweed.Sched.Task.{Regs, waiting_to_start, waiting, Task}
use seaweed.Sched.Scheduler.{Sched, Exit, return, pick, switch_to, scheduler_main}
use seaweed.Sched.Scheduler.Pick.{stop, stop_first, stop_starts, stop_bounds}
use seaweed.Sched.Scheduler.Choice.{Longest, pick_started, pick-Longest}
use seaweed.Sched.Scheduler.Switch.{Switched, CanRun, is_current, switch_to-Switched}
use seaweed.Sched.Scheduler.Invariant.{
  IsConsistent, current, aged, aged_status, is_current-eq, aged-IsConsistent, Switched-IsConsistent,
}

-- `n` is the first task that waits to start.
abbrev pub FirstToStart : Sched → ℕ → Type 0
FirstToStart s n =
    (n < s.number_of_tasks)
    × ((s.tasks n).status ≡ waiting_to_start)
    × ((j : ℕ) → j < n → (s.tasks j).status ≢ waiting_to_start)

abbrev pub NoneToStart : Sched → Type 0
NoneToStart s = (j : ℕ) → j < s.number_of_tasks → (s.tasks j).status ≢ waiting_to_start

-- `n` is the first of the waiting tasks that have waited longest.
abbrev pub LongestWaiting : Sched → ℕ → Type 0
LongestWaiting s n =
    (n < s.number_of_tasks)
    × ((s.tasks n).status ≡ waiting)
    × ((j : ℕ)
        → j < s.number_of_tasks
        → (s.tasks j).status ≡ waiting
        → (s.tasks j).idle_time ≤ (s.tasks n).idle_time)
    × ((j : ℕ)
        → j < n
        → (s.tasks j).status ≡ waiting
        → (s.tasks j).idle_time < (s.tasks n).idle_time)

-- No idle time is about to wrap.
abbrev pub NoWrap : Sched → Type 0
NoWrap s = (j : ℕ) → j < s.number_of_tasks → (s.tasks j).idle_time + 1 < 2 ^ 64

-- What the loop picked is what the scheduler promises to run.
abbrev pub Picked : Sched → Option ℕ → Type 0
Picked s none = (j : ℕ) → j < s.number_of_tasks → ¬ CanRun (s.tasks j)
Picked s (some n) = FirstToStart s n ⊎ (NoneToStart s × LongestWaiting s n)

abbrev pub chosen : Sched → Option ℕ
chosen s = (pick s.tasks s.number_of_tasks 0 0 none).1

Longest-Picked :
    (s : Sched) (r : Option ℕ)
    → NoWrap s
    → NoneToStart s
    → Longest s.tasks 0 s.number_of_tasks 0 none r
    → Picked s r
Longest-Picked s r w none_starts (inl (same, none_older)) = rw same (λ j lt can. elim can [
  | inl e ↦ none_starts j lt e
  | inr e ↦ let z = none_older j (omega arith) lt e in absurd (omega (arith, w j lt))
])
Longest-Picked s r w none_starts (inr (b, is, (_, lt), wb, more, most, first)) = rw is (
    inr (
      none_starts,
      (
        lt,
        wb,
        λ j ltj wj. omega (arith, most j (omega arith) ltj wj, w j ltj, w b lt),
        λ j ltj wj. omega (arith, first j (omega arith) ltj wj, w j (omega arith), w b lt),
      ),
    ))

pick-Picked : (s : Sched) → NoWrap s → Picked s (chosen s)
pick-Picked s w =
    let n = s.number_of_tasks in
    let end = stop s.tasks n 0 in
    let bounds = stop_bounds s.tasks n 0 in
    elim (Bool-cases (ltb end n)) [
      | inl before ↦
          let lt : end < 0 + n = ground arith in
          rw (pick_started s.tasks n 0 0 none lt) (
            inl (
              omega arith,
              stop_starts s.tasks n 0 lt,
              λ j below. stop_first s.tasks n 0 j (omega arith) below,
            ))
      | inr behind ↦
          let all : end ≡ n = ground arith in
          Longest-Picked s _ w (λ j lt. stop_first s.tasks n 0 j (omega arith) (omega arith))
            (pick-Longest s.tasks s.tasks n n 0 0 none (λ j _. refl) (omega arith) all)
    ]

-- What a call of `schedulerMain` does: the tasks that wait have aged, and then the core switches to
-- the task picked, or returns where there is none.
abbrev pub Outcome : Sched → Regs → Option ℕ → Sched × Exit → Type 0
Outcome s regs none r = r ≡ (aged s, return)
Outcome s regs (some n) r = Switched (aged s) regs n r

Picked-CanRun :
    (s : Sched) (n : ℕ) → Picked s (some n) → (n < s.number_of_tasks) × CanRun (s.tasks n)
Picked-CanRun s n (inl (lt, e, _)) = (lt, inl e)
Picked-CanRun s n (inr (_, (lt, e, _, _))) = (lt, inr e)

not_current :
    (s : Sched) (core n : ℕ)
    → IsConsistent s
    → CanRun (s.tasks n)
    → is_current (current s core) n ≡ false
not_current s core n c can = elim (Bool-cases (is_current (current s core) n)) [
  | inl last ↦
      let busy = c.runs core n (is_current-eq _ n last) in
      absurd (elim can [ inl e ↦ cc | inr e ↦ cc ])
  | inr off ↦ off
]

switch_to-Outcome :
    (s : Sched) (regs : Regs) (o : Option ℕ)
    → IsConsistent s
    → Picked s o
    → Outcome s regs o (switch_to (aged s) regs o)
switch_to-Outcome s regs none c p = unfold switch_to in refl
switch_to-Outcome s regs (some n) c p =
    let can : CanRun ((aged s).tasks n) = rw (aged_status s n) (Picked-CanRun s n p).1 in
    switch_to-Switched (aged s) regs n can
      (not_current (aged s) regs.core n (aged-IsConsistent c) can)

pick_nothing : (tasks : ℕ → Task) (n : ℕ) → n ≡ 0 → pick tasks n 0 0 none ≡ (tasks, none)
unfolding pick
pick_nothing tasks n e = rw e refl

scheduler_main-eq :
    (s : Sched) (regs : Regs) → scheduler_main s regs ≡ switch_to (aged s) regs (chosen s)
unfolding scheduler_main aged
scheduler_main-eq s regs = elim (Bool-cases (s.number_of_tasks == 0)) [
  | inl no_tasks ↦
      let nothing = pick_nothing s.tasks s.number_of_tasks (ground arith) in
      let after : (ℕ → Task) × Option ℕ → Sched × Exit =
        λ p. switch_to (record s { tasks = p.0 }) regs p.1 in
      simp no_tasks (sym (ap after nothing ∙ unfold switch_to in refl))
  | inr some_tasks ↦ simp some_tasks
]

-- On every path of `schedulerMain`, in a state where cores and tasks are matched and no idle time
-- is about to wrap: it picks the first task that waits to start, or else the first of those that
-- have waited longest, and switches the core to it; it returns, with nothing changed but the idle
-- times, exactly where no task can run.
pub scheduler_main-Outcome :
    (s : Sched) (regs : Regs)
    → IsConsistent s
    → NoWrap s
    → (o : Option ℕ) × Picked s o × Outcome s regs o (scheduler_main s regs)
scheduler_main-Outcome s regs c w = (
  chosen s,
  pick-Picked s w,
  rw (scheduler_main-eq s regs) (switch_to-Outcome s regs (chosen s) c (pick-Picked s w)),
)

Outcome-IsConsistent :
    (s : Sched) (regs : Regs) (o : Option ℕ) (r : Sched × Exit)
    → IsConsistent s
    → Picked s o
    → Outcome s regs o r
    → IsConsistent r.0
Outcome-IsConsistent s regs none r c p e = rw e (aged-IsConsistent c)
Outcome-IsConsistent s regs (some n) r c p w =
    let (lt, can) = Picked-CanRun s n p in
    Switched-IsConsistent (aged s) regs n r (aged-IsConsistent c) (rw (aged_status s n) can)
      (unfold aged in lt) w

-- `schedulerMain` on any core keeps the cores and the running tasks matched one to one: no task is
-- ever current on two cores.
pub scheduler_main-IsConsistent :
    (s : Sched) (regs : Regs) → IsConsistent s → NoWrap s → IsConsistent (scheduler_main s regs).0
scheduler_main-IsConsistent s regs c w =
    let (o, p, out) = scheduler_main-Outcome s regs c w in
    Outcome-IsConsistent s regs o (scheduler_main s regs) c p out
