-- ===== src/Libk/Print/Laws.antt =====
-- What the loop over a format prints.
use seaweed.Base.{ℕ, ◌-◌, ◌≤◌, ◌≡◌, ◌≢◌, refl, arith, ◌==◌, false}
use seaweed.Base.{inl, inr, ◌<◌, ◌%◌}
use seaweed.Base.{◌⊎◌, Option, none, some, sym, ap, ◌∙◌, List, [], ◌∷◌, ◌++◌}
use seaweed.Base.{u64, length, replicate}
use mathlib.Core.List.{append_assoc}
use seaweed.Base.{length-append, length-replicate}
use seaweed.Libk.Text.{Text, strlen, itob}
use seaweed.Libk.Text.Digits.{
  value_from, AllDigits, AllDigits-zeros, itob_word, value_from-zeros, length_strlen,
}
use seaweed.Libk.Print.{Arg, word, string, print_word, print_string, print_char, convert, format}

abbrev pub NoPercent : Text → Type 0
NoPercent [] = Unit
NoPercent (c ∷ s) = (c ≢ b'%') × NoPercent s

-- A string behind text that the format copies.
abbrev pub behind : Text → Option Text → Option Text
behind s none = none
behind s (some u) = some (s ++ u)

format_char :
    (c d : ℕ) (s : Text) (args : List Arg)
    → c ≢ b'%'
    → format (c ∷ d ∷ s) args ≡ behind (c ∷ []) (format (d ∷ s) args)
unfolding format
format_char c d s args ne =
    let test : (c == b'%') ≡ false = ground arith in
    rw (test, format) (Option-behind (format (d ∷ s) args))
  where
    Option-behind :
        (o : Option Text) → elim o [ none ↦ none | some u ↦ some (c ∷ u) ] ≡ behind (c ∷ []) o
    Option-behind none = refl
    Option-behind (some u) = refl

behind-nil : (o : Option Text) → behind [] o ≡ o
behind-nil none = refl
behind-nil (some u) = refl

behind-behind : (s t : Text) (o : Option Text) → behind s (behind t o) ≡ behind (s ++ t) o
behind-behind s t none = refl
behind-behind s t (some u) = ap some (sym (append_assoc s t u))

-- What a directive prints in front of the rest of the format.
abbrev pub directive : ℕ → Text → List Arg → Option Text
directive letter post args = elim (convert letter args) [
  | none ↦ none
  | some (t, rest) ↦ behind t (format post rest)
]

format_percent :
    (letter : ℕ) (post : Text) (args : List Arg)
    → format (b'%' ∷ letter ∷ post) args ≡ directive letter post args
unfolding format
format_percent letter post args = from (convert letter args)
  where
    of_rest :
        (t : Text) (o : Option Text) → elim o [ none ↦ none | some u ↦ some (t ++ u) ] ≡ behind t o
    of_rest t none = refl
    of_rest t (some u) = refl

    from :
        (r : Option (Text × List Arg))
        → elim r [
          | none ↦ none
          | some (t, rest) ↦ elim (format post rest) [ none ↦ none | some u ↦ some (t ++ u) ]
        ]
          ≡ elim r [ none ↦ none | some (t, rest) ↦ behind t (format post rest) ]
    from none = refl
    from (some (t, rest)) = of_rest t (format post rest)

format-directive :
    (pre : Text) (letter : ℕ) (post : Text) (args : List Arg)
    → NoPercent pre
    → format (pre ++ (b'%' ∷ letter ∷ post)) args ≡ behind pre (directive letter post args)
format-directive [] letter post args h =
    format_percent letter post args ∙ sym (behind-nil (directive letter post args))
format-directive (c ∷ []) letter post args h =
    format_char c b'%' (letter ∷ post) args h.0
    ∙ ap (behind (c ∷ [])) (format_percent letter post args)
format-directive (c ∷ d ∷ s) letter post args h =
    format_char c d (s ++ (b'%' ∷ letter ∷ post)) args h.0
    ∙ ap (behind (c ∷ [])) (format-directive (d ∷ s) letter post args h.1)
    ∙ behind-behind (c ∷ []) (d ∷ s) (directive letter post args)

print_word-some :
    (base width w : ℕ) (rest : List Arg) (s : Text)
    → itob (u64 w) base ≡ some s
    → print_word base width (word w ∷ rest) ≡ some (replicate (width - strlen s) b'0' ++ s, rest)
unfolding print_word
print_word-some base width w rest s e = rw (e, print_word) refl

padded : (width : ℕ) (s : Text) → width ≤ length (replicate (width - strlen s) b'0' ++ s)
padded width s =
    let digit : ℕ = b'0' in
    omega (
      arith,
      length-append (replicate (width - strlen s) digit) s,
      length-replicate (width - strlen s) digit,
      length_strlen s,
    )

print_word_value :
    (base width w : ℕ) (rest : List Arg)
    → (base ≡ 10) ⊎ (base ≡ 16)
    → (t : Text) × (print_word base width (word w ∷ rest) ≡ some (t, rest))
      × (value_from base 0 t ≡ u64 w)
      × AllDigits base t
      × (0 < length t)
      × (width ≤ length t)
print_word_value base width w rest b =
    let (s, returns, value, digits, long, _) = itob_word (u64 w) base (omega arith) b in
    (
      replicate (width - strlen s) b'0' ++ s,
      print_word-some base width w rest s returns,
      value_from-zeros base (width - strlen s) s ∙ value,
      AllDigits-zeros base (width - strlen s) s (bounds b) digits,
      longer (width - strlen s) s long,
      padded width s,
    )
  where
    bounds : (base ≡ 10) ⊎ (base ≡ 16) → 0 < base
    bounds (inl e) = omega arith
    bounds (inr e) = omega arith

    longer : (n : ℕ) (s : Text) → 0 < length s → 0 < length (replicate n b'0' ++ s)
    longer n s lt = let digit : ℕ = b'0' in omega (arith, length-append (replicate n digit) s)

directive-convert :
    (letter : ℕ) (post : Text) (args rest : List Arg) (t : Text)
    → convert letter args ≡ some (t, rest)
    → directive letter post args ≡ behind t (format post rest)
directive-convert letter post args rest t e = rw (directive, e) refl

-- The letters that print a word, with the base and the width of each.
abbrev pub IsNumber : ℕ → ℕ → ℕ → Type 0
IsNumber letter base width =
    ((letter ≡ b'd') × (base ≡ 10) × (width ≡ 0))
    ⊎ ((letter ≡ b'x') × (base ≡ 16) × (width ≡ 0))
    ⊎ ((letter ≡ b'a') × (base ≡ 16) × (width ≡ 16))

convert-IsNumber :
    (letter base width : ℕ) (args : List Arg)
    → IsNumber letter base width
    → convert letter args ≡ print_word base width args
unfolding convert
convert-IsNumber letter base width args (inl (l, b, w)) = rw (l, b, w) refl
convert-IsNumber letter base width args (inr (inl (l, b, w))) = rw (l, b, w) refl
convert-IsNumber letter base width args (inr (inr (l, b, w))) = rw (l, b, w) refl

IsNumber-base : {letter base width : ℕ} → IsNumber letter base width → (base ≡ 10) ⊎ (base ≡ 16)
IsNumber-base (inl (l, b, w)) = inl b
IsNumber-base (inr (inl (l, b, w))) = inr b
IsNumber-base (inr (inr (l, b, w))) = inr b

-- The loop over a format, at a directive behind a text without a percent sign, prints that text as it
-- stands, then the argument, then what the rest of the format prints with the arguments that are left
-- (or nothing is returned, where that fails): for `%d`, `%x` and `%a` and a word, one or more digits of
-- base 10, 16 and 16, for `%a` at least 16 of them, whose value is the word's low 64 bits; for `%s` the
-- string; for `%c` the low byte of the word.
pub format_argument :
    (pre : Text) (letter base width : ℕ) (post : Text) (w : ℕ) (s : Text) (rest : List Arg)
    → NoPercent pre
    → IsNumber letter base width
    → ((t : Text) × (format (pre ++ (b'%' ∷ letter ∷ post)) (word w ∷ rest)
          ≡ behind pre (behind t (format post rest)))
        × (value_from base 0 t ≡ u64 w)
        × AllDigits base t
        × (0 < length t)
        × (width ≤ length t))
      × (format (pre ++ (b'%' ∷ b's' ∷ post)) (string s ∷ rest)
          ≡ behind pre (behind s (format post rest)))
      × (format (pre ++ (b'%' ∷ b'c' ∷ post)) (word w ∷ rest)
          ≡ behind pre (behind (w % 256 ∷ []) (format post rest)))
unfolding convert print_string print_char
format_argument pre letter base width post w s rest none_in number =
    let (t, is, value, digits, some_digit, wide) =
      print_word_value base width w rest (IsNumber-base number) in
    let printed = convert-IsNumber letter base width (word w ∷ rest) number ∙ is in
    (
      (
        t,
        format-directive pre letter post (word w ∷ rest) none_in
            ∙ ap (behind pre) (directive-convert letter post (word w ∷ rest) rest t printed),
        value,
        digits,
        some_digit,
        wide,
      ),
      format-directive pre b's' post (string s ∷ rest) none_in,
      format-directive pre b'c' post (word w ∷ rest) none_in,
    )
