-- ===== src/Mm/Run/Laws.antt =====
-- The search finds the first run of clear bits that is long enough, and the loops that mark and
-- release a run touch its bits only.
use seaweed.Base.{
  ℕ, zero, suc, ◌+◌, ◌-◌, ◌*◌, ◌^◌, ◌<◌, ◌≤◌, ◌≡◌, refl, arith, ◌==◌, if◌then◌else◌, Bool, true,
  false,
}
use seaweed.Base.{
  ltb, leb, Bool-cases, inl, inr, ◌&&◌, u64, Option, none, some, ltb→lt, leb→le, sym, ◌∙◌,
}
use native.Mathlib.Nat.{mod-eq_of_lt}
use mathlib.Core.Bool.{false≢true}
use seaweed.Libk.Bitmap.{Bytes, set, clear, isset}
use seaweed.Libk.Bitmap.Laws.{isset-set, isset-clear}
use seaweed.Mm.Run.{first_free, search, set_range, clear_range}

-- `j` lies in the `n` indices from `s` on.
abbrev pub within : ℕ → ℕ → ℕ → Bool
within s n j = leb s j && ltb j (s + n)

pub isset-set_range :
    (m : Bytes) (s n j : ℕ) → isset (set_range m s n) j ≡ (if within s n j then true else isset m j)
unfolding set_range
isset-set_range m s zero j = ground arith
isset-set_range m s (suc n) j =
    ground (arith, isset-set_range (set m s) (s + 1) n j, isset-set m s j)

pub isset-clear_range :
    (m : Bytes) (s n j : ℕ)
    → isset (clear_range m s n) j ≡ (if within s n j then false else isset m j)
unfolding clear_range
isset-clear_range m s zero j = ground arith
isset-clear_range m s (suc n) j =
    ground (arith, isset-clear_range (clear m s) (s + 1) n j, isset-clear m s j)

-- The `n` bits from `q` on are clear.
abbrev pub FreeRun : Bytes → ℕ → ℕ → Type 0
FreeRun m q n = (j : ℕ) → q ≤ j → j < q + n → isset m j ≡ false

-- What a search for `count` units below `limit` answers, if it looks from `p` on: the first run, as
-- the offset of its first unit, or nothing where there is no run.
abbrev pub FirstRun : Bytes → ℕ → ℕ → ℕ → ℕ → Option ℕ → Type 0
FirstRun m unit count limit p none = (q : ℕ) → p ≤ q → q + count ≤ limit → ¬ FreeRun m q count
FirstRun m unit count limit p (some base) =
    (q : ℕ) × (base ≡ q * unit)
    × (p ≤ q)
    × (q + count ≤ limit)
    × FreeRun m q count
    × ((q' : ℕ) → p ≤ q' → q' + count ≤ limit → FreeRun m q' count → q ≤ q')

-- A run that starts no earlier than `p` starts behind a set bit of the `count` bits from `p` on.
run_behind :
    (m : Bytes) (count p i q : ℕ)
    → isset m i ≡ true
    → i < p + count
    → p ≤ q
    → FreeRun m q count
    → i + 1 ≤ q
run_behind m count p i q e b pq run = elim (Bool-cases (leb q i)) [
  | inl le ↦
      let free : isset m i ≡ false = run i (leb→le q i le) (omega arith) in
      absurd (false≢true (sym free ∙ e))
  | inr gt ↦ ground arith
]

FirstRun-skip :
    (m : Bytes) (unit count limit p i : ℕ) (r : Option ℕ)
    → isset m i ≡ true
    → p ≤ i
    → i < p + count
    → FirstRun m unit count limit (i + 1) r
    → FirstRun m unit count limit p r
FirstRun-skip m unit count limit p i none e a b h =
    λ q pq fits run. h q (run_behind m count p i q e b pq run) fits run
FirstRun-skip m unit count limit p i (some base) e a b (q, at, from, fits, run, least) = (
  q,
  at,
  omega arith,
  fits,
  run,
  λ q' pq fits' run'. least q' (run_behind m count p i q' e b pq run') fits' run',
)

FreeRun-suc :
    (m : Bytes) (p cnt i : ℕ)
    → p + cnt ≡ i
    → isset m i ≡ false
    → FreeRun m p cnt
    → FreeRun m p (cnt + 1)
FreeRun-suc m p cnt i e f run = λ j lo hi. elim (Bool-cases (ltb j i)) [
  | inl lt ↦ run j lo (omega (arith, ltb→lt j i lt))
  | inr ge ↦ let at : j ≡ i = ground arith in rw at f
]

-- The offset behind a set bit does not wrap.
next_base :
    (unit limit p cnt i base : ℕ)
    → base ≡ p * unit
    → p + cnt ≡ i
    → i + 1 ≤ limit
    → limit * unit < 2 ^ 64
    → u64 (base + (cnt + 1) * unit) ≡ (i + 1) * unit
next_base unit limit p cnt i base g f h w =
    let sum : base + (cnt + 1) * unit ≡ (i + 1) * unit = rw (g, ← f) (omega arith) in
    let fits : (i + 1) * unit ≤ limit * unit = grind arith in rw sum (mod-eq_of_lt (omega arith))

-- The search from `i` on, with `cnt` clear bits behind it, finds the first run from the start of
-- those bits on. No offset wraps, since the last one fits 64 bits.
search-FirstRun :
    (m : Bytes) (unit count limit p left i cnt base : ℕ)
    → i + left ≡ limit
    → p + cnt ≡ i
    → base ≡ p * unit
    → cnt < count
    → limit * unit < 2 ^ 64
    → FreeRun m p cnt
    → FirstRun m unit count limit p (search m unit count left i cnt base)
unfolding search
search-FirstRun m unit count limit p zero i cnt base e f g c w run =
    λ q pq fits _. absurd (omega arith)
search-FirstRun m unit count limit p (suc left) i cnt base e f g c w run =
    elim (Bool-cases (isset m i)) [
      | inl used ↦ rw used (
          FirstRun-skip m unit count limit p i _ used (omega arith) (omega arith) (
            search-FirstRun m unit count limit (i + 1) left (i + 1) 0
              (u64 (base + (cnt + 1) * unit)) (omega arith) (omega arith)
              (next_base unit limit p cnt i base g f (omega arith) w) (omega arith) w
              (λ j lo hi. absurd (omega arith))))
      | inr free ↦ rw free (elim (Bool-cases (cnt + 1 == count)) [
        | inl last ↦ rw last (
          p,
          g,
          omega arith,
          ground arith,
          λ j lo hi. FreeRun-suc m p cnt i f free run j lo (ground arith),
          λ q' pq _ _. pq,
        )
        | inr more ↦ rw more (
            search-FirstRun m unit count limit p left (i + 1) (cnt + 1) base (omega arith)
              (omega arith) g (ground arith) w (FreeRun-suc m p cnt i f free run))
      ])
    ]

-- What the search for the first clear bit answers, if it looks from `i` on.
abbrev pub FirstFree : Bytes → ℕ → ℕ → Option ℕ → Type 0
FirstFree m limit i none = (j : ℕ) → i ≤ j → j < limit → isset m j ≡ true
FirstFree m limit i (some f) =
    (i ≤ f) × (f < limit) × (isset m f ≡ false) × ((j : ℕ) → i ≤ j → j < f → isset m j ≡ true)

FirstFree-skip :
    (m : Bytes) (limit i : ℕ) (r : Option ℕ)
    → isset m i ≡ true
    → FirstFree m limit (i + 1) r
    → FirstFree m limit i r
FirstFree-skip m limit i none used h = λ j lo hi. elim (Bool-cases (i == j)) [
  | inl at ↦ let e : j ≡ i = ground arith in rw e used
  | inr ne ↦ h j (ground arith) hi
]
FirstFree-skip m limit i (some f) used (lo, hi, free, before) = (
  omega arith,
  hi,
  free,
  λ j from below. elim (Bool-cases (i == j)) [
    | inl at ↦ let e : j ≡ i = ground arith in rw e used
    | inr ne ↦ before j (ground arith) below
  ],
)

pub first_free-FirstFree :
    (m : Bytes) (limit left i : ℕ) → i + left ≡ limit → FirstFree m limit i (first_free m left i)
unfolding first_free
first_free-FirstFree m limit zero i e = λ j lo hi. absurd (omega arith)
first_free-FirstFree m limit (suc left) i e = elim (Bool-cases (isset m i)) [
  | inl used ↦
      rw used
        (FirstFree-skip m limit i _ used (first_free-FirstFree m limit left (i + 1) (omega arith)))
  | inr free ↦ rw free (omega arith, omega arith, free, λ j lo hi. absurd (omega arith))
]

-- A run starts at no set bit, so none starts below the first clear bit.
FreeRun-from :
    (m : Bytes) (limit count f q : ℕ)
    → 0 < count
    → FirstFree m limit 0 (some f)
    → FreeRun m q count
    → f ≤ q
FreeRun-from m limit count f q pos (_, _, _, before) run = elim (Bool-cases (ltb q f)) [
  | inl lt ↦
      let used : isset m q ≡ true = before q (omega arith) (ltb→lt q f lt) in
      absurd (false≢true (sym (run q (omega arith) (omega arith)) ∙ used))
  | inr ge ↦ ground arith
]

FirstRun-from :
    (m : Bytes) (unit count limit f : ℕ) (r : Option ℕ)
    → 0 < count
    → FirstFree m limit 0 (some f)
    → FirstRun m unit count limit f r
    → FirstRun m unit count limit 0 r
FirstRun-from m unit count limit f none pos first h =
    λ q _ fits run. h q (FreeRun-from m limit count f q pos first run) fits run
FirstRun-from m unit count limit f (some base) pos first (q, at, from, fits, run, least) = (
  q,
  at,
  omega arith,
  fits,
  run,
  λ q' _ fits' run'. least q' (FreeRun-from m limit count f q' pos first run') fits' run',
)

-- Where every bit is set there is no run.
pub FirstRun-none :
    (m : Bytes) (unit count limit : ℕ)
    → 0 < count
    → FirstFree m limit 0 none
    → FirstRun m unit count limit 0 none
FirstRun-none m unit count limit pos full = λ q _ fits run.
    absurd
      (false≢true (sym (run q (omega arith) (omega arith)) ∙ full q (omega arith) (omega arith)))

-- The search that starts at the first clear bit finds the first run of all.
pub search-FirstRun_all :
    (m : Bytes) (unit count limit f : ℕ)
    → 0 < count
    → limit * unit < 2 ^ 64
    → FirstFree m limit 0 (some f)
    → FirstRun m unit count limit 0 (search m unit count (limit - f) f 0 (f * unit))
search-FirstRun_all m unit count limit f pos w first =
    FirstRun-from m unit count limit f _ pos first (
      search-FirstRun m unit count limit f (limit - f) f 0 (f * unit) (omega arith) (omega arith)
        refl pos w (λ j lo hi. absurd (omega arith)))
