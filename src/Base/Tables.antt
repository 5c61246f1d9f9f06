-- ===== src/Base/Tables.antt =====
-- A statement about the small values of a byte or an index, checked by running through them all.
use Prim.Native.Nat.{ℕ, zero, suc, ◌<◌}
use mathlib.Core.Path.{◌≡◌}
use mathlib.Core.Bool.{Bool, true, ◌&&◌}
use native.Mathlib.Omega.{arith}

unfoldable pub holds_below : (ℕ → Bool) → ℕ → Bool
holds_below test zero = true
holds_below test (suc bound) = holds_below test bound && test bound

pub test_of_holds :
    (test : ℕ → Bool) (bound value : ℕ)
    → holds_below test bound ≡ true
    → value < bound
    → test value ≡ true
unfolding holds_below
test_of_holds test zero value all below = absurd (omega arith)
test_of_holds test (suc bound) value all below = ground (arith, test_of_holds test bound value)
