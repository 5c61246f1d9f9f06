-- ===== src/Tests/Texts.antt =====
-- lib/libk/string.c and lib/libk/output.c on short strings.
use seaweed.Base.{◌<◌, ◌≤◌, ◌≡◌, refl, arith, false}
use seaweed.Base.{inl, inr, some, [], ◌∷◌, ◌++◌}
use seaweed.Base.{length}
use seaweed.Libk.Text.{Text, itob}
use seaweed.Libk.Text.Laws.{IsText}
use seaweed.Libk.Text.Digits.{value_from, AllDigits, itob_word}
use seaweed.Libk.Print.{codes, word, string, format}
use seaweed.Libk.Print.Laws.{behind, format_argument}
use seaweed.Libk.Print.Terminal.{Terminal, IsPlaced, putchar, putchar-IsPlaced}

abbrev apic : Text
apic = codes "[APIC]"

abbrev acpi : Text
acpi = codes "[ACPI]"

apic-IsText : IsText apic
apic-IsText = ground arith

acpi-IsText : IsText acpi
acpi-IsText = ground arith

itob_word_example :
    (s : Text) × (itob 0xfee00000 16 ≡ some s)
    × (value_from 16 0 s ≡ 0xfee00000)
    × AllDigits 16 s
    × (0 < length s)
    × (length s ≤ 49)
itob_word_example = itob_word 0xfee00000 16 (omega arith) (inr refl)

format_argument_example :
    ((t : Text) × (format
          (codes "core" ++ (b'%' ∷ b'a' ∷ codes " up"))
          (word 2 ∷ string (codes "x") ∷ [])
        ≡ behind (codes "core") (behind t (format (codes " up") (string (codes "x") ∷ []))))
      × (value_from 16 0 t ≡ 2)
      × AllDigits 16 t
      × (0 < length t)
      × (16 ≤ length t))
    × (format
          (codes "core" ++ (b'%' ∷ b's' ∷ codes " up"))
          (string (codes "two") ∷ string (codes "x") ∷ [])
        ≡ behind
            (codes "core")
            (behind (codes "two") (format (codes " up") (string (codes "x") ∷ []))))
    × (format (codes "core" ++ (b'%' ∷ b'c' ∷ codes " up")) (word 2 ∷ string (codes "x") ∷ [])
        ≡ behind (codes "core") (behind (2 ∷ []) (format (codes " up") (string (codes "x") ∷ []))))
format_argument_example =
    format_argument (codes "core") b'a' 16 16 (codes " up") 2 (codes "two")
      (string (codes "x") ∷ []) (ground arith) (inr (inr (refl, refl, refl)))

abbrev console : Terminal
console = record {
  row = 0;
  column = 16;
  bg = 0;
  fg = 0xffffff;
  width = 1024;
  height = 768;
  reference_column = λ k. 0;
  is_back = false;
  screen = [];
}

console-IsPlaced : IsPlaced console
console-IsPlaced = record {
  lines = refl;
  wide = omega arith;
  aligned = refl;
  inside = omega arith;
  wraps = refl;
}

putchar-IsPlaced_example : IsPlaced (putchar console b'x')
putchar-IsPlaced_example = putchar-IsPlaced console b'x' console-IsPlaced (inl (omega arith))
