-- ===== src/Libk/Text/Laws.antt =====
-- The comparisons and the copy of strings.
use seaweed.Base.{
  ℕ, zero, suc, ◌+◌, ◌-◌, ◌<◌, ◌≤◌, ◌≡◌, ◌≢◌, refl, arith, ◌==◌, if◌then◌else◌, false, leb,
}
use seaweed.Base.{Bool-cases, inl, inr, ◌↔◌, ◌&&◌, [], ◌∷◌}
use seaweed.Base.{get_or, update}
use seaweed.Libk.Text.{Text, strlen, strcmp, strncmp, strncmp_from, copy_text, strcpy}

-- The bytes of a string are from 1 to 255.
abbrev pub IsText : Text → Type 0
IsText [] = Unit
IsText (c ∷ s) = (0 < c) × (c < 256) × IsText s

-- `strcmp` returns 0 exactly for equal strings.
pub strcmp_iff : (s t : Text) → IsText s → IsText t → (strcmp s t ≡ 0) ↔ (s ≡ t)
unfolding strcmp
strcmp_iff [] [] h k = (λ _. refl, λ _. refl)
strcmp_iff [] (b ∷ t) h k = (λ e. absurd (omega arith), λ e. cc)
strcmp_iff (a ∷ s) [] h k = (λ e. absurd (omega arith), λ e. cc)
strcmp_iff (a ∷ s) (b ∷ t) h k = ground (arith, strcmp_iff s t h.2 k.2)

strncmp_from_iff :
    (p q : ℕ → ℕ) (left i : ℕ)
    → (strncmp_from p q left i ≡ 0) ↔ ((k : ℕ) → i ≤ k → k < i + left → p k ≡ q k)
unfolding strncmp_from
strncmp_from_iff p q zero i = (λ _ k lo hi. absurd (omega arith), λ _. refl)
strncmp_from_iff p q (suc left) i = elim (Bool-cases (p i == q i)) [
  | inl same ↦ rw same (
    λ e k lo hi. elim (Bool-cases (i == k)) [
      | inl at ↦ let here : k ≡ i = ground arith in rw here (ground arith)
      | inr off ↦ (strncmp_from_iff p q left (i + 1)).0 e k (ground arith) (omega arith)
    ],
    λ all. (strncmp_from_iff p q left (i + 1)).1 (λ k lo hi. all k (omega arith) (omega arith)),
  )
  | inr differ ↦ rw differ (
    λ e. absurd (omega arith),
    λ all. let here = all i (omega arith) (omega arith) in absurd (ground arith),
  )
]

-- `strncmp` returns 0 exactly where the first `n` bytes agree, bytes behind a NUL included.
strncmp_iff : (p q : ℕ → ℕ) (n : ℕ) → (strncmp p q n ≡ 0) ↔ ((k : ℕ) → k < n → p k ≡ q k)
unfolding strncmp
strncmp_iff p q n = (
  λ e k lt. (strncmp_from_iff p q n 0).0 e k (omega arith) (omega arith),
  λ all. (strncmp_from_iff p q n 0).1 (λ k lo hi. all k (omega arith)),
)

-- The byte `i` of a string in memory: the NUL behind its end.
abbrev pub byte_of : Text → ℕ → ℕ
byte_of s i = get_or s i 0

copy_text_bytes :
    (m : ℕ → ℕ) (dest : ℕ) (s : Text) (k : ℕ)
    → copy_text m dest s k
      ≡ (if leb dest k && leb k (dest + strlen s) then byte_of s (k - dest) else m k)
unfolding copy_text strlen
copy_text_bytes m dest [] k = ground arith
copy_text_bytes m dest (c ∷ s) k =
    let ih = copy_text_bytes (update m dest c) (dest + 1) s k in
    elim (Bool-cases (leb (dest + 1) k)) [
      | inl behind ↦
          let place : k - dest ≡ suc (k - (dest + 1)) = ground arith in
          rw place (ground (arith, ih))
      | inr front ↦ elim (Bool-cases (dest == k)) [
        | inl at ↦ let zero_off : k - dest ≡ 0 = ground arith in rw zero_off (ground (arith, ih))
        | inr off ↦ ground (arith, ih)
      ]
    ]

-- `strcpy` to an address other than NULL returns it, writes the string and its NUL there, and
-- changes no other byte.
pub strcpy_bytes :
    (m : ℕ → ℕ) (dest : ℕ) (s : Text) (k : ℕ)
    → dest ≢ 0
    → ((strcpy m dest s).1 ≡ dest)
      × ((strcpy m dest s).0 k
          ≡ (if leb dest k && leb k (dest + strlen s) then byte_of s (k - dest) else m k))
unfolding strcpy
strcpy_bytes m dest s k ne =
    let test : (dest == 0) ≡ false = ground arith in rw test (refl, copy_text_bytes m dest s k)
