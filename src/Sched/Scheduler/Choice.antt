-- ===== src/Sched/Scheduler/Choice.antt =====
-- The task that the loop of `schedulerMain` settles on: the first that waits to start, or else the one that has waited longest.
use seaweed.Base.{ℕ, zero, suc, ◌+◌, ◌<◌, ◌≤◌, ◌≡◌, ◌≢◌, refl, arith, ◌==◌, if◌then◌else◌, ltb}
use seaweed.Base.{Bool-cases, inl, inr, ◌⊎◌, Option, some, ap, ◌∙◌}
use seaweed.Base.{u64, update}
use seaweed.Sched.Task.{waiting, Task}
use seaweed.Sched.Scheduler.{idle_longer, pick}
use seaweed.Sched.Scheduler.Pick.{
  stop, stop-update, status_view, pick-starts, pick-waits, pick-passes, stop-starts, stop-passes,
  stop-none,
}

-- The idle time of a waiting task after this round.
abbrev pub idle_next : Task → ℕ
idle_next t = u64 (t.idle_time + 1)

-- The choice among the tasks from `i` to `limit`, if `next` had waited `cnt` before: `next`, if none
-- of them has waited longer, or else the first of those that have waited longest.
abbrev pub Longest : (ℕ → Task) → ℕ → ℕ → ℕ → Option ℕ → Option ℕ → Type 0
Longest tasks i limit cnt next r =
    ((r ≡ next)
      × ((j : ℕ) → i ≤ j → j < limit → (tasks j).status ≡ waiting → idle_next (tasks j) ≤ cnt))
    ⊎ ((b : ℕ) × (r ≡ some b)
        × ((i ≤ b) × (b < limit))
        × ((tasks b).status ≡ waiting)
        × (cnt < idle_next (tasks b))
        × ((j : ℕ)
            → i ≤ j
            → j < limit
            → (tasks j).status ≡ waiting
            → idle_next (tasks j) ≤ idle_next (tasks b))
        × ((j : ℕ)
            → i ≤ j
            → j < b
            → (tasks j).status ≡ waiting
            → idle_next (tasks j) < idle_next (tasks b)))

pub pick_started :
    (tasks : ℕ → Task) (left i cnt : ℕ) (next : Option ℕ)
    → stop tasks left i < i + left
    → (pick tasks left i cnt next).1 ≡ some (stop tasks left i)
pick_started tasks zero i cnt next below = absurd (omega (arith, stop-none tasks i))
pick_started tasks (suc left) i cnt next below = elim (status_view (tasks i).status) [
  | inl e ↦ rw (pick-starts tasks left i cnt next e, stop-starts tasks left i cnt next e) refl
  | inr (inl e) ↦
      let t = idle_longer (tasks i) in
      let same = stop-passes tasks left i cnt next (rw e (cc)) in
      let moved = stop-update tasks t left (i + 1) i (omega arith) in
      rw (pick-waits tasks left i cnt next e, same)
        (pick_started (update tasks i t) left (i + 1) _ _ (omega (arith, moved, same))
          ∙ ap some moved)
  | inr (inr (ne, ne')) ↦
      let same = stop-passes tasks left i cnt next ne in
      rw (pick-passes tasks left i cnt next ne ne', same)
        (pick_started tasks left (i + 1) cnt next (omega (arith, same)))
]

-- What holds at `i` and behind it holds from `i` on.
from_here {ℓ} : (P : ℕ → Type ℓ) (i : ℕ) → P i → ((j : ℕ) → i + 1 ≤ j → P j) → (j : ℕ) → i ≤ j → P j
from_here P i here behind j lo = elim (Bool-cases (i == j)) [
  | inl at ↦ let same : j ≡ i = ground arith in rw same here
  | inr off ↦ behind j (ground arith)
]

module _ (tasks : ℕ → Task) (i limit cnt : ℕ) (next r : Option ℕ) where
  Longest-passes :
      (tasks i).status ≢ waiting
      → Longest tasks (i + 1) limit cnt next r
      → Longest tasks i limit cnt next r
  Longest-passes ne (inl (same, none_older)) =
      inl (same, from_here _ i (λ hi w. absurd (ne w)) none_older)
  Longest-passes ne (inr (b, is, (lo, hi), w, more, most, first)) = inr (
    b,
    is,
    (omega arith, hi),
    w,
    more,
    from_here _ i (λ _ wi. absurd (ne wi)) most,
    from_here _ i (λ _ wi. absurd (ne wi)) first,
  )

  -- The task has not waited longer than the best so far.
  Longest-keeps :
      idle_next (tasks i) ≤ cnt
      → Longest tasks (i + 1) limit cnt next r
      → Longest tasks i limit cnt next r
  Longest-keeps le (inl (same, none_older)) = inl (same, from_here _ i (λ hi w. le) none_older)
  Longest-keeps le (inr (b, is, (lo, hi), w, more, most, first)) = inr (
    b,
    is,
    (omega arith, hi),
    w,
    more,
    from_here _ i (λ _ _. omega arith) most,
    from_here _ i (λ _ _. omega arith) first,
  )

  -- The task has waited longer than the best so far.
  Longest-takes :
      (tasks i).status ≡ waiting
      → i < limit
      → cnt < idle_next (tasks i)
      → Longest tasks (i + 1) limit (idle_next (tasks i)) (some i) r
      → Longest tasks i limit cnt next r
  Longest-takes wi below more (inl (same, none_older)) = inr (
    i,
    same,
    (omega arith, below),
    wi,
    more,
    from_here _ i (λ _ _. omega arith) none_older,
    λ j lo hi _. absurd (omega arith),
  )
  Longest-takes wi below less (inr (b, is, (lo, hi), w, more, most, first)) = inr (
    b,
    is,
    (omega arith, hi),
    w,
    omega arith,
    from_here _ i (λ _ _. omega arith) most,
    from_here _ i (λ _ _. more) first,
  )

-- The same with the idle time as the code computes it.
Longest-takes_value :
    (tasks : ℕ → Task) (i limit cnt v : ℕ) (next r : Option ℕ)
    → v ≡ idle_next (tasks i)
    → (tasks i).status ≡ waiting
    → i < limit
    → cnt < v
    → Longest tasks (i + 1) limit v (some i) r
    → Longest tasks i limit cnt next r
Longest-takes_value tasks i limit cnt v next r e wi below more h =
    Longest-takes tasks i limit cnt next r wi below (rw e at more) (rw e at h)

idle_time-idle_longer : (t : Task) → (idle_longer t).idle_time ≡ idle_next t
unfolding idle_longer
idle_time-idle_longer t = refl

-- The loop that has changed only tasks before `i` makes the choice among those from `i` on.
pub pick-Longest :
    (tasks now : ℕ → Task) (limit left i cnt : ℕ) (next : Option ℕ)
    → ((j : ℕ) → i ≤ j → now j ≡ tasks j)
    → i + left ≡ limit
    → stop now left i ≡ limit
    → Longest tasks i limit cnt next (pick now left i cnt next).1
pick-Longest tasks now limit zero i cnt next agree all e =
    inl (unfold pick in refl, λ j lo hi _. absurd (omega arith))
pick-Longest tasks now limit (suc left) i cnt next agree all e = elim (status_view (now i).status) [
  | inl start ↦ absurd (omega (arith, stop-starts now left i cnt next start))
  | inr (inl w) ↦
      let t = idle_longer (now i) in
      let wi : (tasks i).status ≡ waiting = rw (agree i (omega arith)) at w in
      let same = stop-passes now left i cnt next (rw w (cc)) in
      let moved = stop-update now t left (i + 1) i (omega arith) in
      let idle : t.idle_time ≡ idle_next (tasks i) =
        idle_time-idle_longer (now i) ∙ ap (λ x. idle_next x) (agree i (omega arith)) in
      let agree' : (j : ℕ) → i + 1 ≤ j → update now i t j ≡ tasks j =
        λ j lo. ground (arith, agree j) in
      let ih =
        pick-Longest tasks (update now i t) limit left (i + 1)
          (if ltb cnt t.idle_time then t.idle_time else cnt)
          (if ltb cnt t.idle_time then some i else next) agree' (omega arith)
          (omega (arith, moved, same, e)) in
      rw (pick-waits now left i cnt next w) (elim (Bool-cases (ltb cnt t.idle_time)) [
        | inl longer ↦
            Longest-takes_value tasks i limit cnt t.idle_time next _ idle wi (omega arith)
              (ground arith) (rw longer (rw longer at ih))
        | inr not_longer ↦
            Longest-keeps tasks i limit cnt next _ (ground arith)
              (rw not_longer (rw not_longer at ih))
      ])
  | inr (inr (ne, ne')) ↦
      let same = stop-passes now left i cnt next ne in
      rw (pick-passes now left i cnt next ne ne') (
        Longest-passes tasks i limit cnt next _ (rw (← agree i (omega arith)) ne') (
          pick-Longest tasks now limit left (i + 1) cnt next (λ j lo. agree j (omega arith))
            (omega arith) (omega (arith, same, e))))
]
