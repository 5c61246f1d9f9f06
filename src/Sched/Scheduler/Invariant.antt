-- ===== src/Sched/Scheduler/Invariant.antt =====
-- The cores and the running tasks stay matched one to one.
use seaweed.Base.{ℕ, ◌<◌, ◌≡◌, ◌≢◌, refl, arith, ◌==◌, true, false}
use seaweed.Base.{Bool-cases, inl, inr, ◌⊎◌, Option, none, some, sym, ◌∙◌}
use seaweed.Base.{}
use seaweed.Sched.Task.{Regs, running, waiting}
use seaweed.Sched.Scheduler.{Sched, Exit, pick}
use seaweed.Sched.Scheduler.Pick.{pick_tasks, age_status, age-passes}
use seaweed.Sched.Scheduler.Switch.{Switched, CanRun, is_current}

abbrev pub current : Sched → ℕ → Option ℕ
current s c = (s.cpu_info c).current_task

-- Each core's current task is a task that runs, on that core alone; each running task is the
-- current one of a core; and a running task has no idle time.
pub record IsConsistent (s : Sched) : Type 0 where
  pub in_range : (c t : ℕ) → current s c ≡ some t → t < s.number_of_tasks
  pub runs : (c t : ℕ) → current s c ≡ some t → (s.tasks t).status ≡ running
  pub alone : (c d t : ℕ) → current s c ≡ some t → current s d ≡ some t → c ≡ d
  pub owned :
      (t : ℕ)
      → t < s.number_of_tasks
      → (s.tasks t).status ≡ running
      → (c : ℕ) × (current s c ≡ some t)
  pub rested :
      (t : ℕ) → t < s.number_of_tasks → (s.tasks t).status ≡ running → (s.tasks t).idle_time ≡ 0

-- The state after the loop that picks, before the switch.
unfoldable pub aged : Sched → Sched
aged s = record s { tasks = (pick s.tasks s.number_of_tasks 0 0 none).0 }

pub aged_status : (s : Sched) (j : ℕ) → ((aged s).tasks j).status ≡ (s.tasks j).status
unfolding aged
aged_status s j =
    ground (arith, pick_tasks s.tasks s.number_of_tasks 0 0 none j, age_status (s.tasks j))

pub aged_running : (s : Sched) (j : ℕ) → (s.tasks j).status ≡ running → (aged s).tasks j ≡ s.tasks j
unfolding aged
aged_running s j e =
    ground
      (arith, pick_tasks s.tasks s.number_of_tasks 0 0 none j, age-passes (s.tasks j) (rw e (cc)))

pub aged-IsConsistent : {s : Sched} → IsConsistent s → IsConsistent (aged s)
aged-IsConsistent {s} c = record {
  in_range = λ k t e. unfold aged in c.in_range k t (unfold aged in e);
  runs = λ k t e. aged_status s t ∙ c.runs k t (unfold aged in e);
  alone = λ k d t e e'. c.alone k d t (unfold aged in e) (unfold aged in e');
  owned = λ t lt e. unfold aged in c.owned t (unfold aged in lt) (sym (aged_status s t) ∙ e);
  rested = λ t lt e.
      let was : (s.tasks t).status ≡ running = sym (aged_status s t) ∙ e in
      rw (aged_running s t was) (c.rested t (unfold aged in lt) was);
}

pub is_current-eq : (o : Option ℕ) (t : ℕ) → is_current o t ≡ true → o ≡ some t
is_current-eq none t e = absurd (cc)
is_current-eq (some l) t e = ground arith

pub eq-is_current : (o : Option ℕ) (t : ℕ) → o ≡ some t → is_current o t ≡ true
eq-is_current none t e = absurd (cc)
eq-is_current (some l) t e = ground arith

module _ (s : Sched) (regs : Regs) (n : ℕ) (r : Sched × Exit) (c : IsConsistent s)
    (can : CanRun (s.tasks n)) (below : n < s.number_of_tasks) (w : Switched s regs n r) where
  not_running : (s.tasks n).status ≢ running
  not_running = elim can [ inl e ↦ rw e (cc) | inr e ↦ rw e (cc) ]

  -- Another core's task is neither the one that starts nor the one that stops.
  unmoved :
      (d t : ℕ)
      → (d == regs.core) ≡ false
      → current s d ≡ some t
      → ((t == n) ≡ false) × (is_current (current s regs.core) t ≡ false)
  unmoved d t far e = (
    elim (Bool-cases (t == n)) [
      | inl same ↦ let at : t ≡ n = ground arith in absurd (not_running (rw (← at) (c.runs d t e)))
      | inr off ↦ off
    ],
    elim (Bool-cases (is_current (current s regs.core) t)) [
      | inl last ↦
          let home : d ≡ regs.core = c.alone d regs.core t e (is_current-eq _ t last) in
          absurd (ground arith)
      | inr off ↦ off
    ],
  )

  next_task : r.0.tasks n ≡ record (s.tasks n) { idle_time = 0; status = running }
  next_task = w.tasks n ∙ ground arith

  same_task :
      (t : ℕ)
      → (t == n) ≡ false
      → is_current (current s regs.core) t ≡ false
      → r.0.tasks t ≡ s.tasks t
  same_task t off off' = w.tasks t ∙ rw (off, off') refl

  -- A task that runs afterwards is the next one, or it ran before.
  ran :
      (t : ℕ)
      → (r.0.tasks t).status ≡ running
      → (t ≡ n) ⊎ (((t == n) ≡ false) × (is_current (current s regs.core) t ≡ false))
  ran t e = elim (Bool-cases (t == n)) [
    | inl same ↦ inl (ground arith)
    | inr off ↦ elim (Bool-cases (is_current (current s regs.core) t)) [
      | inl last ↦
          let stopped : r.0.tasks t ≡ record (s.tasks t) { regs = regs; status = waiting } =
            w.tasks t ∙ rw (off, last) refl in
          absurd (ground (arith, stopped))
      | inr off' ↦ inr (off, off')
    ]
  ]

  -- The core's task is the next one, and every other core has the task that it had.
  now_current :
      (d t : ℕ)
      → current r.0 d ≡ some t
      → ((d ≡ regs.core) × (t ≡ n)) ⊎ (((d == regs.core) ≡ false) × (current s d ≡ some t))
  now_current d t e = elim (Bool-cases (d == regs.core)) [
    | inl home ↦
        let is : some n ≡ some t = sym (w.current d ∙ rw home refl) ∙ e in
        inl (ground arith, ground arith)
    | inr far ↦ inr (far, sym (w.current d ∙ rw far refl) ∙ e)
  ]

  pub Switched-IsConsistent : IsConsistent r.0
  Switched-IsConsistent = record {
    in_range = λ d t e. rw w.same_number (elim (now_current d t e) [
      | inl (_, at) ↦ rw at below
      | inr (far, e') ↦ c.in_range d t e'
    ]);
    runs = λ d t e. elim (now_current d t e) [
      | inl (_, at) ↦ rw (at, next_task) refl
      | inr (far, e') ↦
          let (off, off') = unmoved d t far e' in rw (same_task t off off') (c.runs d t e')
    ];
    alone = λ d d' t e e'. elim (now_current d t e) [
      | inl (home, at) ↦ elim (now_current d' t e') [
        | inl (home', _) ↦ home ∙ sym home'
        | inr (far, was) ↦ absurd (ground (arith, unmoved d' t far was))
      ]
      | inr (far, was) ↦ elim (now_current d' t e') [
        | inl (home', at) ↦ absurd (ground (arith, unmoved d t far was))
        | inr (far', was') ↦ c.alone d d' t was was'
      ]
    ];
    owned = λ t lt e. elim (ran t e) [
      | inl at ↦ (regs.core, w.current regs.core ∙ ground arith)
      | inr (off, off') ↦
          let (d, was) = c.owned t (rw w.same_number at lt) (rw (same_task t off off') at e) in
          (
            d,
            elim (Bool-cases (d == regs.core)) [
              | inl home ↦
                  let at : d ≡ regs.core = ground arith in
                  absurd (cc (sym off' ∙ eq-is_current _ t (rw at at was)))
              | inr far ↦ w.current d ∙ rw far was
            ],
          )
    ];
    rested = λ t lt e. elim (ran t e) [
      | inl at ↦ rw (at, next_task) refl
      | inr (off, off') ↦
          rw (same_task t off off')
            (c.rested t (rw w.same_number at lt) (rw (same_task t off off') at e))
    ];
  }
