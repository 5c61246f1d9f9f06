-- ===== src/Sched/Scheduler/Fairness.antt =====
-- Whom the loop of `schedulerMain` (kernel/sched/scheduler.c) keeps waiting, and for how long.
use seaweed.Base.{
  ℕ, zero, suc, ◌+◌, ◌<◌, ◌≤◌, ◌≡◌, refl, arith, ◌==◌, if◌then◌else◌, Bool, true, false, ltb,
}
use seaweed.Base.{Bool-cases, inl, inr, ◌⊎◌, ◌&&◌, ◌||◌, none, sym, ◌∙◌}
use seaweed.Base.{}
use seaweed.Sched.Task.{Regs, running, waiting}
use seaweed.Sched.Scheduler.{Sched, Exit, idle_longer}
use seaweed.Sched.Scheduler.Pick.{
  status_view, age-passes, stop, stop_starts, stop_bounds, pick_tasks, age, age-waits,
}
use seaweed.Sched.Scheduler.Switch.{Switched, is_current}
use seaweed.Sched.Scheduler.Invariant.{
  IsConsistent, current, aged, aged_status, aged_running, is_current-eq,
}
use seaweed.Sched.Scheduler.Outcome.{NoneToStart, LongestWaiting, NoWrap}

-- How many numbers below the bound pass the test.
pub count : (ℕ → Bool) → ℕ → ℕ
count p zero = 0
count p (suc n) = if p n then suc (count p n) else count p n

module _ (p q : ℕ → Bool) where
  count_mono : (n : ℕ) → ((j : ℕ) → j < n → q j ≡ true → p j ≡ true) → count q n ≤ count p n
  unfolding count
  count_mono zero h = omega arith
  count_mono (suc n) h =
      let ih = count_mono n (λ j lt. h j (omega arith)) in ground (arith, ih, h n (omega arith))

  pub count_drop :
      (n k : ℕ)
      → ((j : ℕ) → j < n → q j ≡ true → p j ≡ true)
      → k < n
      → p k ≡ true
      → q k ≡ false
      → count q n < count p n
  unfolding count
  count_drop zero k h lt e e' = absurd (omega arith)
  count_drop (suc n) k h lt e e' = elim (Bool-cases (n == k)) [
    | inl at ↦
        let same : n ≡ k = ground arith in
        let less = count_mono n (λ j lt. h j (omega arith)) in
        let here : p n ≡ true = rw same e in
        let gone : q n ≡ false = rw same e' in rw (here, gone) (omega (arith, less))
    | inr off ↦
        let ih = count_drop n k (λ j lt. h j (omega arith)) (ground arith) e e' in
        ground (arith, ih, h n (omega arith))
  ]

pub count-all : (n : ℕ) → count (λ j. true) n ≡ n
unfolding count
count-all zero = refl
count-all (suc n) = omega (arith, count-all n)

-- The waiting task `j` goes before the task `t`.
unfoldable pub ahead : Sched → ℕ → ℕ → Bool
ahead s t j =
    let u = s.tasks j in
    let mine = (s.tasks t).idle_time in
    elim u.status [ waiting ↦ ltb mine u.idle_time || (mine == u.idle_time && ltb j t) | _ ↦ false ]

abbrev Before : Sched → ℕ → ℕ → Type 0
Before s t j =
    ((s.tasks t).idle_time < (s.tasks j).idle_time)
    ⊎ (((s.tasks t).idle_time ≡ (s.tasks j).idle_time) × (j < t))

ahead_means :
    (s : Sched) (t j : ℕ) → ahead s t j ≡ true → ((s.tasks j).status ≡ waiting) × Before s t j
unfolding ahead
ahead_means s t j e = ground arith

means-ahead :
    (s : Sched) (t j : ℕ) → (s.tasks j).status ≡ waiting → Before s t j → ahead s t j ≡ true
unfolding ahead
means-ahead s t j e b = ground arith

-- Task `t` still waits, one round longer; nothing new goes before it, and something no longer does.
pub record Advanced (s : Sched) (t : ℕ) (s' : Sched) : Type 0 where
  pub number : s'.number_of_tasks ≡ s.number_of_tasks
  pub waits : (s'.tasks t).status ≡ waiting
  pub none_starts : NoneToStart s'
  pub ages : (j : ℕ) → j < s.number_of_tasks → (s'.tasks j).idle_time ≤ (s.tasks j).idle_time + 1
  pub fewer : count (ahead s' t) s.number_of_tasks < count (ahead s t) s.number_of_tasks

module _ (s : Sched) (none_starts : NoneToStart s) (w : NoWrap s) where
  stop-all : stop s.tasks s.number_of_tasks 0 ≡ s.number_of_tasks
  stop-all =
      let n = s.number_of_tasks in
      elim (Bool-cases (ltb (stop s.tasks n 0) n)) [
        | inl before ↦
            absurd (none_starts _ (ground arith) (stop_starts s.tasks n 0 (ground arith)))
        | inr behind ↦ ground (arith, stop_bounds s.tasks n 0)
      ]

  aged_task : (j : ℕ) → j < s.number_of_tasks → (aged s).tasks j ≡ age (s.tasks j)
  unfolding aged
  aged_task j lt = ground (arith, pick_tasks s.tasks s.number_of_tasks 0 0 none j, stop-all)

  aged_idle :
      (j : ℕ)
      → j < s.number_of_tasks
      → (s.tasks j).status ≡ waiting
      → ((aged s).tasks j).idle_time ≡ (s.tasks j).idle_time + 1
  aged_idle j lt e =
      rw (aged_task j lt, age-waits (s.tasks j) e) (unfold idle_longer in omega (arith, w j lt))

  -- No idle time is larger than before by more than the round.
  aged_idle_bound :
      (j : ℕ) → j < s.number_of_tasks → ((aged s).tasks j).idle_time ≤ (s.tasks j).idle_time + 1
  aged_idle_bound j lt = elim (status_view (s.tasks j).status) [
    | inr (inl e) ↦ omega (arith, aged_idle j lt e)
    | inl e ↦ rw (aged_task j lt, age-passes (s.tasks j) (rw e (cc))) (omega arith)
    | inr (inr (_, ne)) ↦ rw (aged_task j lt, age-passes (s.tasks j) ne) (omega arith)
  ]

  module _ (regs : Regs) (t n : ℕ) (r : Sched × Exit) (c : IsConsistent s)
      (below : t < s.number_of_tasks) (e : (s.tasks t).status ≡ waiting) (off : (t == n) ≡ false)
      (longest : LongestWaiting s n) (switched : Switched (aged s) regs n r) where
    stopped : ℕ → Bool
    stopped j = is_current (current s regs.core) j

    stopped-rested :
        (j : ℕ) → stopped j ≡ true → ((s.tasks j).status ≡ running) × ((s.tasks j).idle_time ≡ 0)
    unfolding stopped
    stopped-rested j last =
        let is = is_current-eq _ j last in
        let runs = c.runs regs.core j is in (runs, c.rested j (c.in_range regs.core j is) runs)

    -- What the call leaves of a task that neither starts nor stops.
    same_task : (j : ℕ) → (j == n) ≡ false → stopped j ≡ false → r.0.tasks j ≡ (aged s).tasks j
    unfolding stopped
    same_task j ne last = switched.tasks j ∙ rw ne (unfold aged in rw last refl)

    stopped_task :
        (j : ℕ)
        → (j == n) ≡ false
        → stopped j ≡ true
        → (r.0.tasks j).status ≡ waiting × ((r.0.tasks j).idle_time ≡ 0)
    unfolding stopped
    stopped_task j ne last =
        let (runs, rested) = stopped-rested j last in
        let here : is_current ((aged s).cpu_info regs.core).current_task j ≡ true =
          unfold aged in last in
        rw (switched.tasks j, ne, here, aged_running s j runs) (refl, rested)

    started_task : (r.0.tasks n).status ≡ running × ((r.0.tasks n).idle_time ≡ 0)
    started_task = ground (arith, switched.tasks n)

    t_waits : (stopped t ≡ false) × (r.0.tasks t ≡ (aged s).tasks t)
    t_waits = elim (Bool-cases (stopped t)) [
      | inl last ↦ let runs = (stopped-rested t last).0 in absurd (cc)
      | inr on ↦ (on, same_task t off on)
    ]

    t_idle : (r.0.tasks t).idle_time ≡ (s.tasks t).idle_time + 1
    t_idle = rw t_waits.1 (aged_idle t below e)

    ahead-same :
        (j : ℕ)
        → j < s.number_of_tasks
        → (j == n) ≡ false
        → stopped j ≡ false
        → ahead r.0 t j ≡ true
        → ahead s t j ≡ true
    ahead-same j lt ne on a =
        let (waits, before) = ahead_means r.0 t j a in
        let was : (s.tasks j).status ≡ waiting =
          sym (aged_status s j) ∙ rw (← same_task j ne on) waits in
        let idle : (r.0.tasks j).idle_time ≡ (s.tasks j).idle_time + 1 =
          rw (same_task j ne on) (aged_idle j lt was) in
        means-ahead s t j was (omega (arith, before, idle, t_idle))

    ahead_shrinks : (j : ℕ) → j < s.number_of_tasks → ahead r.0 t j ≡ true → ahead s t j ≡ true
    ahead_shrinks j lt a =
        let (waits, before) = ahead_means r.0 t j a in
        elim (Bool-cases (j == n)) [
          | inl at ↦
              let same : j ≡ n = ground arith in absurd (cc (rw same at waits, started_task.0))
          | inr ne ↦ elim (Bool-cases (stopped j)) [
            | inl last ↦ absurd (omega (arith, before, t_idle, stopped_task j ne last))
            | inr on ↦ ahead-same j lt ne on a
          ]
        ]

    n_ahead : ahead s t n ≡ true
    n_ahead =
        let (_, waits, most, first) = longest in
        elim (Bool-cases (ltb t n)) [
          | inl below_n ↦ means-ahead s t n waits (inl (first t (ground arith) e))
          | inr behind ↦
              let behind : n < t = ground arith in
              means-ahead s t n waits (omega (arith, behind, most t below e))
        ]

    n_behind : ahead r.0 t n ≡ false
    n_behind = elim (Bool-cases (ahead r.0 t n)) [
      | inl a ↦ absurd (cc ((ahead_means r.0 t n a).0, started_task.0))
      | inr b ↦ b
    ]

    after_none_starts : NoneToStart r.0
    after_none_starts j lt = elim (Bool-cases (j == n)) [
      | inl at ↦ let same : j ≡ n = ground arith in rw (same, started_task.0) (cc)
      | inr ne ↦ elim (Bool-cases (stopped j)) [
        | inl last ↦ rw ((stopped_task j ne last).0) (cc)
        | inr on ↦
            rw (same_task j ne on, aged_status s j)
              (none_starts j (unfold aged in rw switched.same_number at lt))
      ]
    ]

    after_ages :
        (j : ℕ) → j < s.number_of_tasks → (r.0.tasks j).idle_time ≤ (s.tasks j).idle_time + 1
    after_ages j lt = elim (Bool-cases (j == n)) [
      | inl at ↦ let same : j ≡ n = ground arith in rw same (omega (arith, started_task.1))
      | inr ne ↦ elim (Bool-cases (stopped j)) [
        | inl last ↦ omega (arith, (stopped_task j ne last).1)
        | inr on ↦ rw (same_task j ne on) (aged_idle_bound j lt)
      ]
    ]

    pub Switched-Advanced : Advanced s t r.0
    Switched-Advanced = record {
      number = unfold aged in switched.same_number;
      waits = rw (t_waits.1, aged_status s t) e;
      none_starts = after_none_starts;
      ages = after_ages;
      fewer =
          count_drop (ahead s t) (ahead r.0 t) s.number_of_tasks n ahead_shrinks longest.0 n_ahead
            n_behind;
    }
