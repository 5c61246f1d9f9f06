-- ===== src/Tests/Locks.antt =====
-- The lock of kernel/sched/scheduler.c with two cores that want it.
use seaweed.Base.{ℕ, ◌≡◌, refl, true}
use seaweed.Base.{}
use seaweed.Base.{}
use seaweed.Sched.Lock.{
  spinning, holding, Lock, test_and_set, spin_test, spin_lock, enters, tests, free_lock, Reachable,
  start, next,
}
use seaweed.Sched.Lock.Exclusion.{spin_lock_excludes}

-- Core 3 has the lock, and core 1 has tested it once.
abbrev contended : Lock
contended = spin_test (spin_lock (spin_test (spin_lock free_lock 3) 3 0) 1) 1 0

waits : contended.cores 1 ≡ spinning 1
unfolding spin_test spin_lock test_and_set
waits = refl

contended-Reachable : Reachable contended
unfolding spin_test spin_lock test_and_set
contended-Reachable =
    next
      (next (next (next start (enters free_lock 3 refl)) (tests (spin_lock free_lock 3) 3 0 refl))
        (enters (spin_test (spin_lock free_lock 3) 3 0) 1 refl))
      (tests (spin_lock (spin_test (spin_lock free_lock 3) 3 0) 1) 1 0 refl)

contended_holder : contended.cores 3 ≡ holding
unfolding spin_test spin_lock test_and_set
contended_holder = refl

contended_byte : contended.byte ≡ true
unfolding spin_test spin_lock test_and_set
contended_byte = refl

abbrev holder : ℕ
holder = 3

spin_lock_excludes_example : (holder ≡ 3) × (contended.byte ≡ true)
spin_lock_excludes_example =
    spin_lock_excludes contended holder 3 contended-Reachable contended_holder contended_holder
