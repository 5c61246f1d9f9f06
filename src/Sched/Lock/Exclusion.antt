-- ===== src/Sched/Lock/Exclusion.antt =====
-- No two cores hold a lock at once.
use seaweed.Base.{ℕ, ◌≡◌, ◌≢◌, arith, true, false}
use seaweed.Base.{Bool-cases, inl, inr}
use seaweed.Base.{}
use seaweed.Sched.Lock.{
  outside, spinning, holding, Lock, spin_test, spin_lock, spin_release, Step, enters, tests,
  releases, free_lock, Reachable, start, next,
}

-- The byte is set exactly while a core holds the lock, and that core is the only one.
pub record IsExclusive (l : Lock) : Type 0 where
  pub free : l.byte ≡ false → (c : ℕ) → l.cores c ≢ holding
  pub held : l.byte ≡ true → (c : ℕ) × (l.cores c ≡ holding)
  pub alone : (c d : ℕ) → l.cores c ≡ holding → l.cores d ≡ holding → c ≡ d

spin_lock-IsExclusive :
    (l : Lock) (c : ℕ) → l.cores c ≡ outside → IsExclusive l → IsExclusive (spin_lock l c)
unfolding spin_lock
spin_lock-IsExclusive l c at x = record {
  free = λ e d h. x.free e d (ground arith);
  held = λ e. let (d, h) = x.held e in (d, ground arith);
  alone = λ a b ha hb. x.alone a b (ground arith) (ground arith);
}

spin_test_taken :
    (l : Lock) (c n : ℕ)
    → l.cores c ≡ spinning n
    → l.byte ≡ true
    → IsExclusive l
    → IsExclusive (spin_test l c n)
unfolding spin_test
spin_test_taken l c n at set x = record {
  free = λ e d h. ground arith;
  held = λ e. let (d, h) = x.held set in (d, ground arith);
  alone = λ a b ha hb. x.alone a b (ground arith) (ground arith);
}

spin_test_free :
    (l : Lock) (c n : ℕ)
    → l.cores c ≡ spinning n
    → l.byte ≡ false
    → IsExclusive l
    → IsExclusive (spin_test l c n)
unfolding spin_test
spin_test_free l c n at clear x = record {
  free = λ e d h. ground arith;
  held = λ e. (c, ground arith);
  alone = λ a b ha hb. ground (arith, x.free clear a, x.free clear b);
}

spin_release-IsExclusive :
    (l : Lock) (c : ℕ) → l.cores c ≡ holding → IsExclusive l → IsExclusive (spin_release l c)
unfolding spin_release
spin_release-IsExclusive l c at x = record {
  free = λ e d h. ground (arith, x.alone c d);
  held = λ e. ground arith;
  alone = λ a b ha hb. x.alone a b (ground arith) (ground arith);
}

Step-IsExclusive : {l k : Lock} → Step l k → IsExclusive l → IsExclusive k
Step-IsExclusive (enters l c at) x = spin_lock-IsExclusive l c at x
Step-IsExclusive (tests l c n at) x = elim (Bool-cases l.byte) [
  | inl set ↦ spin_test_taken l c n at set x
  | inr clear ↦ spin_test_free l c n at clear x
]
Step-IsExclusive (releases l c at) x = spin_release-IsExclusive l c at x

free_lock-IsExclusive : IsExclusive free_lock
free_lock-IsExclusive = record {
  free = λ e c h. ground arith;
  held = λ e. ground arith;
  alone = λ c d hc hd. ground arith;
}

Reachable-IsExclusive : {l : Lock} → Reachable l → IsExclusive l
Reachable-IsExclusive start = free_lock-IsExclusive
Reachable-IsExclusive (next r s) = Step-IsExclusive s (Reachable-IsExclusive r)

-- Mutual exclusion: however the cores interleave, from a free lock on, two cores that are between
-- spinLock and spinRelease are the same core, and the byte is set; when the byte is clear no core is.
pub spin_lock_excludes :
    (l : Lock) (c d : ℕ)
    → Reachable l
    → l.cores c ≡ holding
    → l.cores d ≡ holding
    → (c ≡ d) × (l.byte ≡ true)
spin_lock_excludes l c d r hc hd =
    let x = Reachable-IsExclusive r in
    (
      x.alone c d hc hd,
      elim (Bool-cases l.byte) [ inl set ↦ set | inr clear ↦ absurd (x.free clear c hc) ],
    )

-- A byte that is set was set by a core that holds the lock now: no lock stays behind without a core
-- to release it, also when a core has given up with the interrupt of the deadlock count.
pub spin_lock_owner : (l : Lock) → Reachable l → l.byte ≡ true → (c : ℕ) × (l.cores c ≡ holding)
spin_lock_owner l r set = (Reachable-IsExclusive r).held set
