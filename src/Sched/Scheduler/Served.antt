-- ===== src/Sched/Scheduler/Served.antt =====
-- `schedulerMain` (kernel/sched/scheduler.c) starves no task that waits.
use seaweed.Base.{ℕ, suc, ◌+◌, ◌^◌, ◌<◌, ◌≤◌, ◌≡◌, refl, arith, ◌==◌, true, false}
use seaweed.Base.{Bool-cases, inl, inr, ◌⊎◌, Option, none, some, ◌∙◌, List, [], ◌∷◌}
use seaweed.Base.{length}
use seaweed.Sched.Task.{Regs, waiting}
use seaweed.Sched.Scheduler.{Sched, Exit, scheduler_main}
use seaweed.Sched.Scheduler.Switch.{Switched}
use seaweed.Sched.Scheduler.Invariant.{IsConsistent, current, aged}
use seaweed.Sched.Scheduler.Outcome.{
  NoneToStart, NoWrap, Picked, Outcome, scheduler_main-Outcome, scheduler_main-IsConsistent,
}
use seaweed.Sched.Scheduler.Fairness.{
  count, count_drop, count-all, ahead, Advanced, Switched-Advanced,
}

-- The timer interrupts the cores in the order of the list, and one of these calls of
-- `schedulerMain` makes the task `t` the current one of its core.
pub Served : ℕ → Sched → List Regs → Type 0
Served t s [] = ⊥
Served t s (regs ∷ rest) =
    let after = (scheduler_main s regs).0 in
    (current after regs.core ≡ some t) ⊎ Served t after rest

served-now :
    (s : Sched) (t : ℕ) (regs : Regs)
    → (r : Sched × Exit) → Switched (aged s) regs t r
    → current r.0 regs.core ≡ some t
served-now s t regs r switched = switched.current regs.core ∙ ground arith

module _ (s : Sched) (t : ℕ) (regs : Regs) (c : IsConsistent s) (none_starts : NoneToStart s)
    (w : NoWrap s) (below : t < s.number_of_tasks) (e : (s.tasks t).status ≡ waiting) where
  Outcome-Advanced :
      (o : Option ℕ) (r : Sched × Exit)
      → Picked s o
      → Outcome s regs o r
      → (current r.0 regs.core ≡ some t) ⊎ Advanced s t r.0
  Outcome-Advanced none r nobody _ = absurd (nobody t below (inr e))
  Outcome-Advanced (some n) r (inl (lt, starts, _)) _ = absurd (none_starts n lt starts)
  Outcome-Advanced (some n) r (inr (_, longest)) switched = elim (Bool-cases (t == n)) [
    | inl at ↦ let same : t ≡ n = ground arith in inl (served-now s t regs r (rw same switched))
    | inr off ↦ inr (Switched-Advanced s none_starts w regs t n r c below e off longest switched)
  ]

  -- A call serves the task or brings it nearer.
  scheduler_main-Advanced :
      (current (scheduler_main s regs).0 regs.core ≡ some t)
      ⊎ Advanced s t (scheduler_main s regs).0
  scheduler_main-Advanced =
      let (o, picked, out) = scheduler_main-Outcome s regs c w in
      Outcome-Advanced o (scheduler_main s regs) picked out

-- The idle times have room for as many rounds.
abbrev pub Room : Sched → ℕ → Type 0
Room s rounds = (j : ℕ) → j < s.number_of_tasks → (s.tasks j).idle_time + rounds < 2 ^ 64

Advanced-Room :
    (s s' : Sched) (t rounds : ℕ) → Advanced s t s' → Room s (suc rounds) → Room s' rounds
Advanced-Room s s' t rounds a room j lt =
    let lt' : j < s.number_of_tasks = rw a.number at lt in omega (arith, a.ages j lt', room j lt')

Served-ahead :
    (rs : List Regs) (s : Sched) (t : ℕ)
    → IsConsistent s
    → NoneToStart s
    → Room s (length rs)
    → t < s.number_of_tasks
    → (s.tasks t).status ≡ waiting
    → count (ahead s t) s.number_of_tasks < length rs
    → Served t s rs
unfolding Served
Served-ahead [] s t c none_starts room below e less = absurd (omega (arith, less))
Served-ahead (regs ∷ rs) s t c none_starts room below e less =
    let w : NoWrap s = λ j lt. omega (arith, room j lt) in
    elim (scheduler_main-Advanced s t regs c none_starts w below e) [
      | inl served ↦ inl served
      | inr a ↦
          let after = (scheduler_main s regs).0 in
          inr (
            Served-ahead rs after t (scheduler_main-IsConsistent s regs c w) a.none_starts
              (Advanced-Room s after t (length rs) a room) (rw a.number below) a.waits
              (rw a.number (omega (arith, a.fewer, less))))
    ]

not_ahead : (s : Sched) (t : ℕ) → ahead s t t ≡ false
unfolding ahead
not_ahead s t = ground arith

-- Every waiting task runs in bounded time: from a state where cores and tasks are matched, no task
-- waits to start and no idle time wraps within the calls, one of any as many calls of
-- `schedulerMain` as there are tasks, on whichever cores and whatever was interrupted, makes the
-- task the current one of its core.
pub scheduler_main_serves :
    (s : Sched) (t : ℕ) (rs : List Regs)
    → IsConsistent s
    → NoneToStart s
    → Room s (length rs)
    → t < s.number_of_tasks
    → (s.tasks t).status ≡ waiting
    → s.number_of_tasks ≤ length rs
    → Served t s rs
scheduler_main_serves s t rs c none_starts room below e enough =
    let n = s.number_of_tasks in
    let less = count_drop (λ j. true) (ahead s t) n t (λ j _ _. refl) below refl (not_ahead s t) in
    Served-ahead rs s t c none_starts room below e (omega (arith, less, count-all n))
