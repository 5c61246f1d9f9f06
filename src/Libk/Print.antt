-- ===== src/Libk/Print.antt =====
-- lib/libk/output.c and lib/libu/logs.c: the three printing functions and their tables. What goes to
-- the serial port, or by a system call to it, is the list of its bytes.
pub mod Laws
pub mod Terminal
use seaweed.Base.{
  ℕ, zero, suc, ◌+◌, ◌-◌, ◌*◌, ◌/◌, ◌%◌, ◌^◌, ◌<◌, ◌≤◌, ◌≡◌, ◌≢◌, refl, arith, ◌==◌, if◌then◌else◌,
  Bool, true, false, ltb, leb, ==_iff, ltb→lt, leb→le, lt→ltb,
}
use seaweed.Base.{
  Bool-cases, Option-cases, inl, inr, ◌⊎◌, ◌↔◌, not, ◌&&◌, ◌||◌, Option, none, some, sym, ap, ◌∙◌,
  List, [], ◌∷◌, ◌++◌, map,
}
use seaweed.Base.{
  u8, u16, u32, u64, ◌<<<◌, ◌>>>◌, bit_and, bit_or, bit_xor, not32, length, get_elem?, get_or, take,
  drop, replicate, update,
}
use Prim.Native.Char.{code}
use Prim.Native.String
use Prim.Native.String.{String}
use seaweed.Libk.Text.{Text, strlen, strcmp, itob}

abbrev pub codes : String → Text
codes String.[] = []
codes (String.◌∷◌ c s) = code c ∷ codes s

-- `prefixList_t`, with the colours as indices of `bashColours`.
pub record Prefix : Type 0 where
  pub prefix : Text
  pub prefix_colour : ℕ
  pub text_colour : ℕ

abbrev pub prefix_list : List Prefix
prefix_list =
    record { prefix = codes "[KDEBUG]"; prefix_colour = 3; text_colour = 4 }
    ∷ record { prefix = codes "[KMM]"; prefix_colour = 3; text_colour = 10 }
    ∷ record { prefix = codes "[ACPI]"; prefix_colour = 6; text_colour = 7 }
    ∷ record { prefix = codes "[APIC]"; prefix_colour = 2; text_colour = 3 }
    ∷ record { prefix = codes "[SMP]"; prefix_colour = 4; text_colour = 13 }
    ∷ record { prefix = codes "[PCI]"; prefix_colour = 5; text_colour = 11 }
    ∷ record { prefix = codes "[AHCI]"; prefix_colour = 10; text_colour = 12 }
    ∷ record { prefix = codes "[FS]"; prefix_colour = 2; text_colour = 11 }
    ∷ record { prefix = codes "[NET]"; prefix_colour = 3; text_colour = 4 }
    ∷ []

abbrev escape : String → Text
escape s = 27 ∷ codes s

abbrev pub bash_colours : List Text
bash_colours =
    escape "[39m"
    ∷ escape "[30m"
    ∷ escape "[31m"
    ∷ escape "[32m"
    ∷ escape "[33m"
    ∷ escape "[34m"
    ∷ escape "[35m"
    ∷ escape "[36m"
    ∷ escape "[37m"
    ∷ escape "[90m"
    ∷ escape "[91m"
    ∷ escape "[92m"
    ∷ escape "[93m"
    ∷ escape "[94m"
    ∷ escape "[95m"
    ∷ escape "[96m"
    ∷ escape "[97m"
    ∷ []

abbrev pub colour : ℕ → Text
colour i = get_or bash_colours i []

-- What a caller passes for the conversions: a word, or a string.
pub data Arg : Type 0 where
  word : ℕ → Arg
  string : Text → Arg

-- The bytes of a conversion and the arguments that it leaves; `none` where the argument is missing
-- or of the other kind, which C leaves undefined.
unfoldable pub print_word : ℕ → ℕ → List Arg → Option (Text × List Arg)
print_word base width [] = none
print_word base width (string s ∷ rest) = none
print_word base width (word w ∷ rest) = elim (itob (u64 w) base) [
  | none ↦ none
  | some s ↦ some (replicate (width - strlen s) b'0' ++ s, rest)
]

unfoldable pub print_string : List Arg → Option (Text × List Arg)
print_string [] = none
print_string (word w ∷ rest) = none
print_string (string s ∷ rest) = some (s, rest)

unfoldable pub print_char : List Arg → Option (Text × List Arg)
print_char [] = none
print_char (string s ∷ rest) = none
print_char (word w ∷ rest) = some (u8 w ∷ [], rest)

-- The switch on the letter behind `%`; an unknown letter prints nothing.
unfoldable pub convert : ℕ → List Arg → Option (Text × List Arg)
convert letter args =
    if letter == b'd'
    then print_word 10 0 args
    else if letter == b's'
    then print_string args
    else if letter == b'c'
    then print_char args
    else if letter == b'x'
    then print_word 16 0 args
    else if letter == b'a'
    then print_word 16 16 args
    else some ([], args)

-- The loop over the format; a `%` at its end prints nothing.
unfoldable pub format : Text → List Arg → Option Text
format [] args = some []
format (c ∷ []) args = some (if c == b'%' then [] else c ∷ [])
format (c ∷ d ∷ s) args = elim (c == b'%') [
  | true ↦ elim (convert d args) [
    | none ↦ none
    | some (t, rest) ↦ elim (format s rest) [ none ↦ none | some u ↦ some (t ++ u) ]
  ]
  | false ↦ elim (format (d ∷ s) args) [ none ↦ none | some u ↦ some (c ∷ u) ]
]

-- The loop over `prefixList`; its last round prints the default colour if it does not match.
unfoldable pub header : List Prefix → Text → Text
header [] prefix = []
header (p ∷ ps) prefix =
    let rest = header ps prefix in
    if strcmp p.prefix prefix == 0
    then colour p.prefix_colour ++ (prefix ++ (colour p.text_colour ++ (b' ' ∷ [])))
    else elim ps [ [] ↦ colour 0 | _ ∷ _ ↦ rest ]

unfoldable pub kprint_ds : Text → Text → List Arg → Option Text
kprint_ds prefix str args = elim (format str args) [
  | none ↦ none
  | some body ↦ some (header prefix_list prefix ++ (body ++ (b'\n' ∷ [])))
]

unfoldable pub printf : Text → List Arg → Option Text
printf str args = elim (format str args) [ none ↦ none | some body ↦ some (body ++ (b'\n' ∷ [])) ]
