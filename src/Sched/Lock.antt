-- ===== src/Sched/Lock.antt =====
-- kernel/sched/scheduler.c: spinLock and spinRelease, with the cores that call them as an interleaving
-- of steps. A step is one test of the lock's byte, which the processor does at once.
pub mod Exclusion
use seaweed.Base.{
  ℕ, zero, suc, ◌+◌, ◌-◌, ◌*◌, ◌/◌, ◌%◌, ◌^◌, ◌<◌, ◌≤◌, ◌≡◌, ◌≢◌, refl, arith, ◌==◌, if◌then◌else◌,
  Bool, true, false, ltb, leb, ==_iff, ltb→lt, leb→le, lt→ltb,
}
use seaweed.Base.{
  Bool-cases, Option-cases, inl, inr, ◌⊎◌, ◌↔◌, not, ◌&&◌, ◌||◌, Option, none, some, sym, ap, ◌∙◌,
  List, [], ◌∷◌, ◌++◌, map,
}
use seaweed.Base.{
  u8, u16, u32, u64, ◌<<<◌, ◌>>>◌, bit_and, bit_or, bit_xor, not32, length, get_elem?, get_or, take,
  drop, replicate, update,
}

-- Where a core stands: outside, in the loop of `spinLock` with `deadLockCnt`, between `spinLock` and
-- `spinRelease`, or behind `int $0x15`, whose handler never returns.
pub data Core : Type 0 where
  outside : Core
  spinning : ℕ → Core
  holding : Core
  halted : Core

-- The byte behind the pointer, and the cores.
pub record Lock : Type 0 where
  pub byte : Bool
  pub cores : ℕ → Core

-- `__atomic_test_and_set`: the byte that was there, and the lock after it.
unfoldable pub test_and_set : Lock → Bool × Lock
test_and_set l = (l.byte, record l { byte = true })

-- One test of the loop by the core `c`, which has counted `dead_lock_cnt` tests before.
unfoldable pub spin_test : Lock → ℕ → ℕ → Lock
unfolding test_and_set
spin_test l c dead_lock_cnt =
    let (taken, after) = test_and_set l in
    record after {
      cores = update l.cores c (
          if taken
          then if suc dead_lock_cnt == 100000000 then halted else spinning (suc dead_lock_cnt)
          else holding);
    }

unfoldable pub spin_lock : Lock → ℕ → Lock
spin_lock l c = record l { cores = update l.cores c (spinning 0) }

unfoldable pub spin_release : Lock → ℕ → Lock
spin_release l c = record { byte = false; cores = update l.cores c outside }

-- What a core may do next: call `spinLock`, test once more, or call `spinRelease` as the one that
-- holds the lock.
pub data Step : Lock → Lock → Type 0 where
  enters : (l : Lock) (c : ℕ) → l.cores c ≡ outside → Step l (spin_lock l c)
  tests : (l : Lock) (c n : ℕ) → l.cores c ≡ spinning n → Step l (spin_test l c n)
  releases : (l : Lock) (c : ℕ) → l.cores c ≡ holding → Step l (spin_release l c)

-- The lock as it is declared, `static char lock = 0`, with every core outside.
abbrev pub free_lock : Lock
free_lock = record { byte = false; cores = λ c. outside }

-- What the cores can make of it, in any order of their steps.
pub data Reachable : Lock → Type 0 where
  start : Reachable free_lock
  next : {l k : Lock} → Reachable l → Step l k → Reachable k
