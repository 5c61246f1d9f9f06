-- ===== src/Libk/Print/Terminal.antt =====
-- lib/libk/output.c: `putchar`, the cursor of the screen console, and `kprintVS`.
use seaweed.Base.{
  ℕ, ◌+◌, ◌-◌, ◌%◌, ◌^◌, ◌<◌, ◌≤◌, ◌≡◌, ◌≢◌, refl, arith, ◌==◌, if◌then◌else◌, Bool, true, false,
}
use seaweed.Base.{Bool-cases, inl, inr, ◌⊎◌, not, ◌&&◌, Option, none, some, List, [], ◌∷◌}
use seaweed.Base.{u32, u64, update}
use seaweed.Libk.Text.{Text}
use seaweed.Libk.Print.{Arg, format}

-- A call of `renderChar` with the console's colours.
pub record Drawn : Type 0 where
  pub x : ℕ
  pub y : ℕ
  pub fg : ℕ
  pub bg : ℕ
  pub char : ℕ

-- `terminalRow` counts pixels to the right, and `terminalColumn` pixels down. `is_back` is the
-- static variable of `putchar`; `screen` lists the characters drawn, the last first.
pub record Terminal : Type 0 where
  pub row : ℕ
  pub column : ℕ
  pub bg : ℕ
  pub fg : ℕ
  pub width : ℕ
  pub height : ℕ
  pub reference_column : ℕ → ℕ
  pub is_back : Bool
  pub screen : List Drawn

unfoldable pub init_vesa_text : Terminal → ℕ → ℕ → ℕ → ℕ → (ℕ → ℕ) → Terminal
init_vesa_text t fg bg x y memory = record t {
  bg = bg;
  fg = fg;
  width = u32 x;
  height = u32 y;
  reference_column = memory;
}

-- The default case of the switch.
unfoldable pub draw : Terminal → ℕ → Terminal
draw t c =
    let drawn = record { x = t.row; y = t.column; fg = t.fg; bg = t.bg; char = c } ∷ t.screen in
    let row = u64 (t.row + 8) in
    let down = u64 (t.column + 8) in
    if row == t.width && not t.is_back
    then record t { row = 0; column = if down == t.height then 0 else down; screen = drawn }
    else record t { row = row; screen = drawn }

-- `terminalRow -= 8; putchar(' '); terminalRow -= 8;`
unfoldable pub rub_out : Terminal → Terminal
rub_out t =
    let after = draw (record t { row = u64 (t.row + 2 ^ 64 - 8) }) b' ' in
    record after { row = u64 (after.row + 2 ^ 64 - 8) }

-- The case of a backspace; the variable stays set where the cursor stood at the left end.
unfoldable pub backspace : Terminal → Terminal
unfolding rub_out
backspace t =
    let t' = record t { is_back = true } in
    if t.row == 0
    then if t.column == 0
      then t'
      else rub_out (record t' { column = u64 (t.column + 2 ^ 64 - 8); row = t.width })
    else record (rub_out t') { is_back = false }

unfoldable pub new_line : Terminal → Terminal
new_line t = record t {
  reference_column = update t.reference_column t.row (u32 t.column);
  row = 0;
  column = u64 (t.column + 8);
}

unfoldable pub putchar : Terminal → ℕ → Terminal
unfolding new_line backspace
putchar t c =
    if c == b'\n'
    then new_line t
    else if c == b'\t'
    then draw (draw (draw (draw t b' ') b' ') b' ') b' '
    else if c == 8
    then backspace t
    else draw t c

unfoldable pub put_text : Terminal → Text → Terminal
put_text t [] = t
put_text t (c ∷ s) = put_text (putchar t c) s

-- `none` is a conversion whose argument is missing or of the wrong kind.
unfoldable pub kprint_vs : Terminal → Text → List Arg → Option Terminal
kprint_vs t str args = elim (format str args) [ none ↦ none | some body ↦ some (put_text t body) ]

-- The cursor stands on a cell of the line, and a line that is full ends.
pub record IsPlaced (t : Terminal) : Type 0 where
  pub lines : t.width % 8 ≡ 0
  pub wide : t.width < 2 ^ 32
  pub aligned : t.row % 8 ≡ 0
  pub inside : t.row < t.width
  pub wraps : t.is_back ≡ false

draw-IsPlaced : (t : Terminal) (c : ℕ) → IsPlaced t → IsPlaced (draw t c)
unfolding draw
draw-IsPlaced t c p = ground arith

-- Away from the left end a backspace draws a space over the last character, and stands on it.
backspace-IsPlaced : (t : Terminal) → IsPlaced t → t.row ≢ 0 → IsPlaced (backspace t)
unfolding backspace draw
backspace-IsPlaced t p ne = ground arith

new_line-IsPlaced : (t : Terminal) → IsPlaced t → IsPlaced (new_line t)
unfolding new_line
new_line-IsPlaced t p = ground arith

tab-IsPlaced :
    (t : Terminal) → IsPlaced t → IsPlaced (draw (draw (draw (draw t b' ') b' ') b' ') b' ')
tab-IsPlaced t p =
    draw-IsPlaced _ b' ' (draw-IsPlaced _ b' ' (draw-IsPlaced _ b' ' (draw-IsPlaced t b' ' p)))

-- `putchar` keeps the cursor on a cell of the line, for every character but a backspace at the left
-- end of a line.
pub putchar-IsPlaced :
    (t : Terminal) (c : ℕ) → IsPlaced t → (c ≢ 8) ⊎ (t.row ≢ 0) → IsPlaced (putchar t c)
putchar-IsPlaced t c p ok = elim (Bool-cases (c == b'\n')) [
  | inl line ↦ unfold putchar in rw line (new_line-IsPlaced t p)
  | inr n1 ↦ elim (Bool-cases (c == b'\t')) [
    | inl tab ↦ unfold putchar in rw (n1, tab) (tab-IsPlaced t p)
    | inr n2 ↦ elim (Bool-cases (c == 8)) [
      | inl back ↦ unfold putchar in rw (n1, n2, back) (backspace-IsPlaced t p (ground arith))
      | inr n3 ↦ unfold putchar in rw (n1, n2, n3) (draw-IsPlaced t c p)
    ]
  ]
]

backspace_left :
    (t : Terminal)
    → IsPlaced t
    → t.row ≡ 0
    → t.column ≢ 0
    → ((backspace t).row ≡ t.width - 8)
      × ((backspace t).is_back ≡ true)
      × ((backspace t).width ≡ t.width)
unfolding backspace draw
backspace_left t p left below = ground arith

draw_overruns :
    (t : Terminal) (c w : ℕ)
    → t.is_back ≡ true
    → t.row ≡ w - 8
    → 8 ≤ w
    → w < 2 ^ 32
    → (draw t c).row ≡ w
unfolding draw
draw_overruns t c w set at wide small = ground arith

putchar-draw : (t : Terminal) (c : ℕ) → c ≢ b'\n' → c ≢ b'\t' → c ≢ 8 → putchar t c ≡ draw t c
unfolding putchar
putchar-draw t c n1 n2 n3 =
    let e1 : (c == b'\n') ≡ false = ground arith in
    let e2 : (c == b'\t') ≡ false = ground arith in
    let e3 : (c == 8) ≡ false = ground arith in rw (e1, e2, e3) refl

-- After a backspace at the left end of a line below the first the variable is set, and the cursor
-- stands on the last cell of the line above; the next character leaves it behind the end of the
-- line, where no line is ended.
backspace_overruns :
    (t : Terminal) (c : ℕ)
    → IsPlaced t
    → t.row ≡ 0
    → t.column ≢ 0
    → c ≢ b'\n'
    → c ≢ b'\t'
    → c ≢ 8
    → let back = putchar t 8 in
      (back.row ≡ t.width - 8) × (back.is_back ≡ true) × ((putchar back c).row ≡ t.width)
backspace_overruns t c p left below n1 n2 n3 =
    let is_back : putchar t 8 ≡ backspace t = unfold putchar in refl in
    let (row, set, width) = backspace_left t p left below in
    rw is_back (
      row,
      set,
      rw (putchar-draw (backspace t) c n1 n2 n3)
          (draw_overruns (backspace t) c t.width set row (omega arith) (omega arith)),
    )
