-- ===== src/Base/Arrays.antt =====
-- A C array behind a pointer: its elements by index, with no bound of its own.
use Prim.Native.Nat.{ℕ}
use seaweed.Base.Tests.{◌==◌, if◌then◌else◌}

abbrev pub update {ℓ} : {A : Type ℓ} → (ℕ → A) → ℕ → A → ℕ → A
update f i v k = if k == i then v else f k
