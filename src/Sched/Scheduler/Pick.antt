-- ===== src/Sched/Scheduler/Pick.antt =====
-- Which task the loop of `schedulerMain` picks, and how the tasks age.
use seaweed.Base.{ℕ, zero, suc, ◌+◌, ◌<◌, ◌≤◌, ◌≡◌, ◌≢◌, refl, arith, ◌==◌, if◌then◌else◌, ltb, leb}
use seaweed.Base.{Bool-cases, inl, inr, ◌⊎◌, ◌&&◌, Option, none, some, ◌∙◌}
use seaweed.Base.{update}
use seaweed.Sched.Task.{Status, waiting_to_start, running, waiting, other, Task}
use seaweed.Sched.Scheduler.{idle_longer, pick}

-- Where the loop stops: at the first task that waits to start, or behind the tasks.
pub stop : (ℕ → Task) → ℕ → ℕ → ℕ
stop tasks zero i = i
stop tasks (suc left) i =
    let rest = stop tasks left (i + 1) in elim (tasks i).status [ waiting_to_start ↦ i | _ ↦ rest ]

-- A task that waits ages by one.
pub age : Task → Task
age t = elim t.status [ waiting ↦ idle_longer t | _ ↦ t ]

pub stop-update :
    (tasks : ℕ → Task) (t : Task) (left i k : ℕ)
    → k < i
    → stop (update tasks k t) left i ≡ stop tasks left i
unfolding stop
stop-update tasks t zero i k below = refl
stop-update tasks t (suc left) i k below =
    let here : update tasks k t i ≡ tasks i = ground arith in
    let rest = stop-update tasks t left (i + 1) k (omega arith) in ground (arith, rest, here)

pub stop_bounds :
    (tasks : ℕ → Task) (left i : ℕ) → (i ≤ stop tasks left i) × (stop tasks left i ≤ i + left)
unfolding stop
stop_bounds tasks zero i = omega arith
stop_bounds tasks (suc left) i = ground (arith, stop_bounds tasks left (i + 1))

-- The task waits to start, it waits, or the loop passes it over.
pub status_view :
    (s : Status)
    → (s ≡ waiting_to_start) ⊎ ((s ≡ waiting) ⊎ ((s ≢ waiting_to_start) × (s ≢ waiting)))
status_view waiting_to_start = inl refl
status_view waiting = inr (inl refl)
status_view running = inr (inr (cc, cc))
status_view other = inr (inr (cc, cc))

module _ (tasks : ℕ → Task) (left i cnt : ℕ) (next : Option ℕ) where
  abbrev pub aged : Task
  aged = idle_longer (tasks i)

  pub pick-starts :
      (tasks i).status ≡ waiting_to_start → pick tasks (suc left) i cnt next ≡ (tasks, some i)
  unfolding pick
  pick-starts e = rw (e, pick) refl

  pub pick-waits :
      (tasks i).status ≡ waiting
      → pick tasks (suc left) i cnt next
        ≡ pick
            (update tasks i aged)
            left
            (i + 1)
            (if ltb cnt aged.idle_time then aged.idle_time else cnt)
            (if ltb cnt aged.idle_time then some i else next)
  unfolding pick
  pick-waits e = ground arith

  pub pick-passes :
      (tasks i).status ≢ waiting_to_start
      → (tasks i).status ≢ waiting
      → pick tasks (suc left) i cnt next ≡ pick tasks left (i + 1) cnt next
  unfolding pick
  pick-passes ne ne' = ground arith

  pub stop-starts : (tasks i).status ≡ waiting_to_start → stop tasks (suc left) i ≡ i
  unfolding stop
  stop-starts e = rw (e, stop) refl

  pub stop-passes :
      (tasks i).status ≢ waiting_to_start → stop tasks (suc left) i ≡ stop tasks left (i + 1)
  unfolding stop
  stop-passes ne = ground arith

pub age-waits : (t : Task) → t.status ≡ waiting → age t ≡ idle_longer t
unfolding age
age-waits t e = ground arith

pub age_status : (t : Task) → (age t).status ≡ t.status
unfolding age idle_longer
age_status t = ground arith

pub age-passes : (t : Task) → t.status ≢ waiting → age t ≡ t
unfolding age
age-passes t ne = ground arith

pub stop-none : (tasks : ℕ → Task) (i : ℕ) → stop tasks 0 i ≡ i
unfolding stop
stop-none tasks i = refl

-- No task before the stop waits to start, and the one at the stop does.
pub stop_first :
    (tasks : ℕ → Task) (left i j : ℕ)
    → i ≤ j
    → j < stop tasks left i
    → (tasks j).status ≢ waiting_to_start
stop_first tasks zero i j lo hi = absurd (unfold stop in omega arith)
stop_first tasks (suc left) i j lo hi = elim (status_view (tasks i).status) [
  | inl e ↦ absurd (omega (arith, stop-starts tasks left i 0 none e))
  | inr e ↦
      let ne : (tasks i).status ≢ waiting_to_start = ground arith in
      elim (Bool-cases (i == j)) [
        | inl at ↦ let same : j ≡ i = ground arith in rw same ne
        | inr off ↦
            stop_first tasks left (i + 1) j (ground arith)
              (omega (arith, stop-passes tasks left i 0 none ne))
      ]
]

pub stop_starts :
    (tasks : ℕ → Task) (left i : ℕ)
    → stop tasks left i < i + left
    → (tasks (stop tasks left i)).status ≡ waiting_to_start
stop_starts tasks zero i below = absurd (unfold stop in omega arith)
stop_starts tasks (suc left) i below = elim (status_view (tasks i).status) [
  | inl e ↦ rw (stop-starts tasks left i 0 none e) e
  | inr e ↦
      let ne : (tasks i).status ≢ waiting_to_start = ground arith in
      let same = stop-passes tasks left i 0 none ne in
      rw same (stop_starts tasks left (i + 1) (omega (arith, same)))
]

pub pick_tasks :
    (tasks : ℕ → Task) (left i cnt : ℕ) (next : Option ℕ) (j : ℕ)
    → (pick tasks left i cnt next).0 j
      ≡ (if leb i j && ltb j (stop tasks left i) then age (tasks j) else tasks j)
pick_tasks tasks zero i cnt next j = unfold pick stop in ground arith
pick_tasks tasks (suc left) i cnt next j = elim (status_view (tasks i).status) [
  | inl e ↦
      rw (pick-starts tasks left i cnt next e, stop-starts tasks left i cnt next e) (ground arith)
  | inr (inl e) ↦
      let t = idle_longer (tasks i) in
      let ih =
        pick_tasks (update tasks i t) left (i + 1)
          (if ltb cnt t.idle_time then t.idle_time else cnt)
          (if ltb cnt t.idle_time then some i else next) j in
      rw (pick-waits tasks left i cnt next e, stop-passes tasks left i cnt next (rw e (cc)))
        (ih
          ∙ rw (stop-update tasks t left (i + 1) i (omega arith))
              (ground (arith, stop_bounds tasks left (i + 1), age-waits (tasks i) e)))
  | inr (inr (ne, ne')) ↦
      rw (pick-passes tasks left i cnt next ne ne', stop-passes tasks left i cnt next ne)
        (pick_tasks tasks left (i + 1) cnt next j
          ∙ ground (arith, stop_bounds tasks left (i + 1), age-passes (tasks i) ne'))
]
