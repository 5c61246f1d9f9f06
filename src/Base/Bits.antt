-- ===== src/Base/Bits.antt =====
-- The disjunction with a value that fits below the low zeros of the other is their sum.
use Prim.Native.Nat.{
  ℕ, zero, suc, ◌+◌, ◌*◌, ◌/◌, ◌%◌, ◌^◌, ◌≤◌, ◌<◌, max, min, digits, bit_or, bit_or-bitwise,
  bit_and, bit_and-bitwise,
}
use mathlib.Core.Path.{◌≡◌, refl, ap, ◌∙◌}
use native.Mathlib.Nat.{pow-suc, mod-lt, one-le-pow}
use native.Mathlib.Omega.{arith}

-- The digits of `bit_or`, on any fuel that the first number does not exceed.
abbrev or_on : ℕ → ℕ → ℕ → ℕ
or_on fuel a b = digits (λ b. b) max fuel a b

or_on_none : (fuel a : ℕ) → a ≤ fuel → or_on fuel a 0 ≡ a
or_on_none zero a le = omega arith
or_on_none (suc fuel) zero le = refl
or_on_none (suc fuel) (suc a) le = omega (arith, or_on_none fuel (suc a / 2) (omega arith))

double_shift : (q k : ℕ) → q * 2 ^ suc k ≡ q * 2 ^ k * 2
double_shift q k = omega (arith, ap (λ (t : ℕ). q * t) (pow-suc 2 k))

or_on_low : (k fuel q a r : ℕ) → a ≡ q * 2 ^ k → a ≤ fuel → r < 2 ^ k → or_on fuel a r ≡ a + r
or_on_low zero fuel q a r e le fits =
    let none : r ≡ 0 = omega arith in rw none (omega (arith, or_on_none fuel a le))
or_on_low (suc k) zero q a r e le fits = omega arith
or_on_low (suc k) (suc fuel) q zero r e le fits = omega arith
or_on_low (suc k) (suc fuel) q (suc a) r e le fits =
    let half : suc a / 2 ≡ q * 2 ^ k = omega (arith, e, double_shift q k) in
    let rest =
      or_on_low k fuel q (suc a / 2) (r / 2) half (omega arith) (omega (arith, pow-suc 2 k)) in
    ground (arith, rest, half, double_shift q k, e)

-- `k` low zeros, and a value of `k` bits.
pub bit_or-add : (k q r : ℕ) → r < 2 ^ k → bit_or (q * 2 ^ k) r ≡ q * 2 ^ k + r
bit_or-add k q r fits =
    bit_or-bitwise (q * 2 ^ k) r ∙ or_on_low k (q * 2 ^ k) q (q * 2 ^ k) r refl (omega arith) fits

-- The digits of `bit_and`, likewise.
abbrev and_on : ℕ → ℕ → ℕ → ℕ
and_on fuel a b = digits (λ b. 0) min fuel a b

and_on_none : (fuel a : ℕ) → a ≤ fuel → and_on fuel a 0 ≡ 0
and_on_none zero a le = omega arith
and_on_none (suc fuel) zero le = refl
and_on_none (suc fuel) (suc a) le = omega (arith, and_on_none fuel (suc a / 2) (omega arith))

min_odd : (d : ℕ) → d < 2 → min d 1 ≡ d
min_odd d lt = ground arith

min_even : (d : ℕ) → min d 0 ≡ 0
min_even d = ground arith

-- A mask `m` of `w` ones leaves the lowest `w` digits, `r`.
and_on_ones :
    (w fuel q r a m : ℕ)
    → m + 1 ≡ 2 ^ w
    → r < 2 ^ w
    → a ≡ q * 2 ^ w + r
    → a ≤ fuel
    → and_on fuel a m ≡ r
and_on_ones zero fuel q r a m e fits is le =
    let none : m ≡ 0 = omega arith in rw none (omega (arith, and_on_none fuel a le))
and_on_ones (suc w) zero q r a m e fits is le = omega arith
and_on_ones (suc w) (suc fuel) q r zero m e fits is le = omega arith
and_on_ones (suc w) (suc fuel) q r (suc a) m e fits is le =
    let half : suc a / 2 ≡ q * 2 ^ w + r / 2 = omega (arith, is, double_shift q w) in
    let ones : m / 2 + 1 ≡ 2 ^ w = omega (arith, e, pow-suc 2 w) in
    let odd : m % 2 ≡ 1 = omega (arith, e, pow-suc 2 w) in
    let rest =
      and_on_ones w fuel q (r / 2) (suc a / 2) (m / 2) ones (omega (arith, pow-suc 2 w)) half
        (omega arith) in
    rw odd (omega (arith, rest, is, double_shift q w, min_odd (suc a % 2) (omega arith)))

-- The mask stands `k` digits higher, so the digits below go as well.
and_on_window :
    (k fuel w q r low a m : ℕ)
    → m + 1 ≡ 2 ^ w
    → r < 2 ^ w
    → low < 2 ^ k
    → a ≡ (q * 2 ^ w + r) * 2 ^ k + low
    → a ≤ fuel
    → and_on fuel a (m * 2 ^ k) ≡ r * 2 ^ k
and_on_window zero fuel w q r low a m e fits under is le =
    omega (arith, and_on_ones w fuel q r a (m * 2 ^ 0) (omega arith) fits (omega arith) le)
and_on_window (suc k) zero w q r low a m e fits under is le = omega arith
and_on_window (suc k) (suc fuel) w q r low zero m e fits under is le = omega arith
and_on_window (suc k) (suc fuel) w q r low (suc a) m e fits under is le =
    let top = q * 2 ^ w + r in
    let half : suc a / 2 ≡ top * 2 ^ k + low / 2 = omega (arith, is, double_shift top k) in
    let mask : m * 2 ^ suc k / 2 ≡ m * 2 ^ k = omega (arith, double_shift m k) in
    let even : m * 2 ^ suc k % 2 ≡ 0 = omega (arith, double_shift m k) in
    let rest =
      and_on_window k fuel w q r (low / 2) (suc a / 2) m e fits (omega (arith, pow-suc 2 k)) half
        (omega arith) in
    rw (even, mask) (omega (arith, rest, double_shift r k, min_even (suc a % 2)))

-- Eight digits from the `k`-th on.
pub bit_and_byte : (k a : ℕ) → bit_and a (0xff * 2 ^ k) ≡ a / 2 ^ k % 2 ^ 8 * 2 ^ k
bit_and_byte k a =
    let top = a / 2 ^ k in
    let whole : top / 2 ^ 8 * 2 ^ 8 + top % 2 ^ 8 ≡ top = omega arith in
    bit_and-bitwise a (0xff * 2 ^ k)
    ∙ and_on_window k a 8 (top / 2 ^ 8) (top % 2 ^ 8) (a % 2 ^ k) a 0xff refl (omega arith)
        (mod-lt a (one-le-pow k 2 (omega arith)))
        (rw whole (omega (arith, one-le-pow k 2 (omega arith)))) (omega arith)

-- The lowest sixteen digits.
pub bit_and_half : (a : ℕ) → bit_and a 0xffff ≡ a % 2 ^ 16
bit_and_half a =
    bit_and-bitwise a 0xffff
    ∙ and_on_ones 16 a (a / 2 ^ 16) (a % 2 ^ 16) a 0xffff refl (omega arith) (omega arith)
        (omega arith)

pub zero-bit_and : (b : ℕ) → bit_and 0 b ≡ 0
zero-bit_and b = bit_and-bitwise 0 b
