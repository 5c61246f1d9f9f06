-- ===== src/Libk/Text.antt =====
-- lib/libk/string.c. A `char *` that is read is the list of the bytes before its NUL.
pub mod Laws
pub mod Digits
use seaweed.Base.{
  ℕ, zero, suc, ◌+◌, ◌-◌, ◌*◌, ◌/◌, ◌%◌, ◌^◌, ◌<◌, ◌≤◌, ◌≡◌, ◌≢◌, refl, arith, ◌==◌, if◌then◌else◌,
  Bool, true, false, ltb, leb, ==_iff, ltb→lt, leb→le, lt→ltb,
}
use seaweed.Base.{
  Bool-cases, Option-cases, inl, inr, ◌⊎◌, ◌↔◌, not, ◌&&◌, ◌||◌, Option, none, some, sym, ap, ◌∙◌,
  List, [], ◌∷◌, ◌++◌, map,
}
use seaweed.Base.{
  u8, u16, u32, u64, ◌<<<◌, ◌>>>◌, bit_and, bit_or, bit_xor, not32, length, get_elem?, get_or, take,
  drop, replicate, update,
}

abbrev pub Text : Type 0
Text = List ℕ

unfoldable pub strlen : Text → ℕ
strlen [] = 0
strlen (c ∷ s) = suc (strlen s)

-- The difference of the first two bytes that differ, as a 32-bit `int`; the NUL counts as 0.
unfoldable pub strcmp : Text → Text → ℕ
strcmp [] [] = 0
strcmp [] (b ∷ t) = u32 (2 ^ 32 - b)
strcmp (a ∷ s) [] = a
strcmp (a ∷ s) (b ∷ t) = let rest = strcmp s t in if a == b then rest else u32 (a + 2 ^ 32 - b)

-- It compares `n` bytes of memory and does not stop at a NUL; `left` remain from `i` on.
unfoldable pub strncmp_from : (ℕ → ℕ) → (ℕ → ℕ) → ℕ → ℕ → ℕ
strncmp_from str1 str2 zero i = 0
strncmp_from str1 str2 (suc left) i =
    let rest = strncmp_from str1 str2 left (i + 1) in if str1 i == str2 i then rest else 1

unfoldable pub strncmp : (ℕ → ℕ) → (ℕ → ℕ) → ℕ → ℕ
strncmp str1 str2 n = strncmp_from str1 str2 n 0

-- The loop and the NUL behind it.
unfoldable pub copy_text : (ℕ → ℕ) → ℕ → Text → ℕ → ℕ
copy_text m dest [] = update m dest 0
copy_text m dest (c ∷ s) = copy_text (update m dest c) (dest + 1) s

-- NULL, the address 0, is returned as it is and nothing is written.
unfoldable pub strcpy : (ℕ → ℕ) → ℕ → Text → (ℕ → ℕ) × ℕ
strcpy m dest src = if dest == 0 then (m, 0) else (copy_text m dest src, dest)

-- `hold[d]`, the digits 0 to 9 and A to F.
unfoldable pub hold : ℕ → ℕ
hold d = if ltb d 10 then b'0' + d else b'A' + (d - 10)

-- `*--str = hold[num % base]` while there is room in front of `str`; `none` is a write before the
-- buffer.
unfoldable pub itob_from : ℕ → ℕ → ℕ → Text → Option Text
itob_from base zero num str = none
itob_from base (suc room) num str =
    let str' = hold (num % base) ∷ str in
    let more = itob_from base room (num / base) str' in if num / base == 0 then some str' else more

-- The buffer has 50 bytes, and its last is the NUL.
unfoldable pub itob : ℕ → ℕ → Option Text
unfolding itob_from
itob num base = itob_from base 49 num []
