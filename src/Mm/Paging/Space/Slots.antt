-- ===== src/Mm/Paging/Space/Slots.antt =====
-- The first free slot of a table, of spaces (kernel/mm/virtualPageManager.c) or of tasks.
use seaweed.Base.{ℕ, zero, suc, ◌+◌, ◌<◌, ◌≤◌, ◌≡◌, ◌≢◌, refl, arith, ◌==◌}
use seaweed.Base.{Bool-cases, inl, inr, some}
use seaweed.Mm.Paging.Space.{first_zero}

pub first_zero-at :
    (field : ℕ → ℕ) (left i k : ℕ)
    → i ≤ k
    → k < i + left
    → ((j : ℕ) → i ≤ j → j < k → field j ≢ 0)
    → field k ≡ 0
    → first_zero field left i ≡ some k
unfolding first_zero
first_zero-at field zero i k lo hi before e = absurd (omega arith)
first_zero-at field (suc left) i k lo hi before e = elim (Bool-cases (i == k)) [
  | inl at ↦ let same : i ≡ k = ground arith in rw (same, e) refl
  | inr off ↦
      let ih =
        first_zero-at field left (i + 1) k (ground arith) (omega arith)
          (λ j a b. before j (omega arith) b) e in
      let ne = before i (omega arith) (ground arith) in ground (arith, ih)
]

pub first_zero_bound :
    (field : ℕ → ℕ) (left i k : ℕ) → first_zero field left i ≡ some k → k < i + left
unfolding first_zero
first_zero_bound field zero i k e = absurd (cc)
first_zero_bound field (suc left) i k e = elim (Bool-cases (field i == 0)) [
  | inl here ↦
      let is : some i ≡ some k = rw here at e in let same : i ≡ k = ground arith in omega arith
  | inr off ↦ omega (arith, first_zero_bound field left (i + 1) k (rw off at e))
]
