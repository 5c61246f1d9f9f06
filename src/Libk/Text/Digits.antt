-- ===== src/Libk/Text/Digits.antt =====
-- `itob`: the digits that it writes, and when its buffer is large enough.
use seaweed.Base.{
  ℕ, zero, suc, ◌+◌, ◌-◌, ◌*◌, ◌/◌, ◌%◌, ◌^◌, ◌<◌, ◌≤◌, ◌≡◌, ◌≢◌, refl, arith, ◌==◌, if◌then◌else◌,
  true, false, leb, ◌&&◌,
}
use seaweed.Base.{Bool-cases, inl, inr, ◌⊎◌, Option, some, ap, ◌∙◌, [], ◌∷◌, ◌++◌}
use seaweed.Base.{length, replicate}
use Prim.Native.Nat.pow
use native.Mathlib.Nat.{pow-suc, mul_comm, div-add-mod, div-lt_iff_lt-mul, mod-lt}
use seaweed.Libk.Text.{Text, strlen, hold, itob, itob_from}

-- The value of a digit, `0` to `9` or `A` to `F`; any other character has the value 16, which is that
-- of no digit.
pub digit_value : ℕ → ℕ
digit_value c =
    if leb b'0' c && leb c b'9'
    then c - b'0'
    else if leb b'A' c && leb c b'F'
    then c - b'A' + 10
    else 16

-- Every character is a digit of the base.
unfoldable pub AllDigits : ℕ → Text → Type 0
AllDigits base [] = Unit
AllDigits base (c ∷ s) = (digit_value c < base) × AllDigits base s

-- The value of a number in the base whose digits before these have the value `v`.

unfoldable pub value_from : ℕ → ℕ → Text → ℕ
value_from base v [] = v
value_from base v (c ∷ s) = value_from base (v * base + digit_value c) s

digit_value-hold : (d : ℕ) → d < 16 → digit_value (hold d) ≡ d
unfolding digit_value hold
digit_value-hold d lt = ground arith

div-lt : (base room num : ℕ) → 0 < base → num < base ^ suc room → num / base < base ^ room
div-lt base room num pos lt = (div-lt_iff_lt-mul pos).1 (rw pow-suc at lt)

-- What the loop leaves: a string in front of `str`, which fits the room, and which has the value of
-- `num` followed by the digits of `str`.
record Written (base room num : ℕ) (str : Text) (r : Option Text) : Type 0 where
  out : Text
  returns : r ≡ some out
  value : value_from base 0 out ≡ value_from base num str
  digits : AllDigits base str → AllDigits base out
  longer : length str < length out
  fits : length out ≤ room + length str

split : (num base : ℕ) → num / base * base + num % base ≡ num
split num base = omega (arith, div-add-mod num base, mul_comm (num / base) base)

module _ (base room num : ℕ) (str : Text) (lo : 1 < base) (hi : base ≤ 16) where
  AllDigits-hold : AllDigits base str → AllDigits base (hold (num % base) ∷ str)
  unfolding AllDigits
  AllDigits-hold all =
      let digit : num % base < base = mod-lt num (omega arith) in
      (rw (digit_value-hold (num % base) (omega arith)) digit, all)

  -- Writing the last digit of `num` moves its value over to the string.
  value-hold : value_from base (num / base) (hold (num % base) ∷ str) ≡ value_from base num str
  unfolding value_from
  value-hold =
      let digit : num % base < base = mod-lt num (omega arith) in
      ap (λ v. value_from base v str)
        (ap (λ d. num / base * base + d) (digit_value-hold (num % base) (omega arith))
          ∙ split num base)

  itob_from-last :
      num / base ≡ 0 → Written base (suc room) num str (itob_from base (suc room) num str)
  unfolding itob_from
  itob_from-last e =
      let last : (num / base == 0) ≡ true = ground arith in
      rw last (record {
        out = hold (num % base) ∷ str;
        returns = refl;
        value = rw e at value-hold;
        digits = AllDigits-hold;
        longer = omega arith;
        fits = omega arith;
      })

  itob_from-more :
      num / base ≢ 0
      → Written base room
          (num / base)
          (hold (num % base) ∷ str)
          (itob_from base room (num / base) (hold (num % base) ∷ str))
      → Written base (suc room) num str (itob_from base (suc room) num str)
  unfolding itob_from
  itob_from-more ne w =
      let more : (num / base == 0) ≡ false = ground arith in
      rw more (record {
        out = w.out;
        returns = w.returns;
        value = w.value ∙ value-hold;
        digits = λ all. w.digits (AllDigits-hold all);
        longer = omega (arith, w.longer);
        fits = omega (arith, w.fits);
      })

itob_from-Written :
    (base room num : ℕ) (str : Text)
    → 1 < base
    → base ≤ 16
    → num < base ^ suc room
    → Written base (suc room) num str (itob_from base (suc room) num str)
itob_from-Written base zero num str lo hi lt =
    let none_left : num / base < base ^ 0 = div-lt base 0 num (omega arith) lt in
    itob_from-last base 0 num str lo hi (omega (arith, pow.zero base))
itob_from-Written base (suc room) num str lo hi lt = elim (Bool-cases (num / base == 0)) [
  | inl last ↦ itob_from-last base (suc room) num str lo hi (ground arith)
  | inr more ↦ itob_from-more base (suc room) num str lo hi (ground arith) (
      itob_from-Written base room (num / base) (hold (num % base) ∷ str) lo hi
        (div-lt base (suc room) num (omega arith) lt))
]

-- In a base from 2 to 16, `itob` of a number below the base's 49th power stays in its buffer: the
-- string that it returns has 1 to 49 characters, all of them digits of that base, and their value is
-- the number.
pub itob_value :
    (num base : ℕ)
    → 1 < base
    → base ≤ 16
    → num < base ^ 49
    → (s : Text) × (itob num base ≡ some s)
      × (value_from base 0 s ≡ num)
      × AllDigits base s
      × (0 < length s)
      × (length s ≤ 49)
unfolding itob value_from AllDigits
itob_value num base lo hi lt =
    let w = itob_from-Written base 48 num [] lo hi lt in
    (w.out, w.returns, w.value, w.digits tt, w.longer, omega (arith, w.fits))

-- itob of a 64-bit number in base 10 or 16, the bases of the printing functions, returns 1 to 49
-- characters: all of them are digits of the base, `0` to `9` and for 10 to 15 `A` to `F`, and the value
-- of the digits is the number.
pub itob_word :
    (num base : ℕ)
    → num < 2 ^ 64
    → (base ≡ 10) ⊎ (base ≡ 16)
    → (s : Text) × (itob num base ≡ some s)
      × (value_from base 0 s ≡ num)
      × AllDigits base s
      × (0 < length s)
      × (length s ≤ 49)
itob_word num base lt (inl ten) =
    rw ten (itob_value num 10 (omega arith) (omega arith) (omega arith))
itob_word num base lt (inr hex) =
    rw hex (itob_value num 16 (omega arith) (omega arith) (omega arith))

pub AllDigits-zeros :
    (base n : ℕ) (s : Text) → 0 < base → AllDigits base s → AllDigits base (replicate n b'0' ++ s)
unfolding AllDigits digit_value
AllDigits-zeros base zero s pos all = all
AllDigits-zeros base (suc n) s pos all = (pos, AllDigits-zeros base n s pos all)

-- Zeros in front of a number do not change its value.
pub value_from-zeros :
    (base n : ℕ) (s : Text) → value_from base 0 (replicate n b'0' ++ s) ≡ value_from base 0 s
unfolding value_from digit_value
value_from-zeros base zero s = refl
value_from-zeros base (suc n) s =
    ap (λ v. value_from base v (replicate n b'0' ++ s)) (omega arith) ∙ value_from-zeros base n s

pub length_strlen : (s : Text) → length s ≡ strlen s
unfolding strlen
length_strlen [] = refl
length_strlen (c ∷ s) = ap suc (length_strlen s)
