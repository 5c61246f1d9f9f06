-- ===== src/Drivers/Vesa/Laws.antt =====
-- What a drawn character leaves on the screen.
use seaweed.Base.{
  ℕ, zero, suc, ◌+◌, ◌-◌, ◌^◌, ◌<◌, ◌≤◌, ◌≡◌, refl, arith, ◌==◌, if◌then◌else◌, Bool, true, false,
  ltb, leb,
}
use seaweed.Base.{Bool-cases, inl, inr, ◌&&◌, ◌∙◌}
use seaweed.Drivers.Vesa.{
  Screen, Bytes, grab_colour, is_lit, render_line, render_lines, render_char,
}
use seaweed.Drivers.Font.{font_byte}
use seaweed.Drivers.Vesa.Pixels.{IsScreen, grab_colour-set_pixel}

-- The first `n` pixels of the line `z` from column `x`.
abbrev pub is_within : ℕ → ℕ → ℕ → ℕ → ℕ → Bool
is_within x z n a b = (leb x a && ltb a (x + n)) && (b == z)

is_within-suc :
    (x z n a b : ℕ)
    → ((a == (n + x)) && (b == z)) ≡ false
    → is_within x z n a b ≡ is_within x z (suc n) a b
is_within-suc x z n a b off = ground arith

is_within_last :
    (x z n a b : ℕ) → ((a == (n + x)) && (b == z)) ≡ true → is_within x z (suc n) a b ≡ true
is_within_last x z n a b last = ground arith

module _ (glyphs : ℕ → ℕ → ℕ) (s : Screen) (x y fg bg c : ℕ) (valid : IsScreen s)
    (fits_x : x + 8 ≤ s.width) (fits_y : y + 8 ≤ s.height) (fg32 : fg < 2 ^ 32)
    (bg32 : bg < 2 ^ 32) where
  abbrev shade : ℕ → ℕ → ℕ
  shade i j = if is_lit glyphs c i j then fg else bg

  shade_fits : (i j : ℕ) → shade i j < 2 ^ 32
  shade_fits i j = ground arith

  render_line_pixels :
      (i n : ℕ) (m : Bytes) (a b : ℕ)
      → i < 8
      → n ≤ 8
      → a < s.width
      → b < s.height
      → grab_colour s a b (render_line glyphs s x y fg bg c i n m)
        ≡ (if is_within x (y + i) n a b then shade i (a - x) else grab_colour s a b m)
  unfolding render_line
  render_line_pixels i zero m a b i_lt n_le a_in b_in =
      let empty : is_within x (y + i) 0 a b ≡ false = ground arith in rw empty refl
  render_line_pixels i (suc n) m a b i_lt n_le a_in b_in =
      let before = render_line glyphs s x y fg bg c i n m in
      let earlier = render_line_pixels i n m a b i_lt (omega arith) a_in b_in in
      grab_colour-set_pixel s (n + x) (y + i) a b (shade i n) before valid (omega arith)
        (omega arith) a_in b_in (shade_fits i n)
      ∙ elim (Bool-cases ((a == (n + x)) && (b == (y + i)))) [
        | inl last ↦
            let column : a - x ≡ n = ground arith in
            rw last (rw (is_within_last x (y + i) n a b last) (rw column refl))
        | inr off ↦ rw off (earlier ∙ rw (is_within-suc x (y + i) n a b off) refl)
      ]

  render_lines_pixels :
      (n : ℕ) (m : Bytes) (a b : ℕ)
      → n ≤ 8
      → a < s.width
      → b < s.height
      → grab_colour s a b (render_lines glyphs s x y fg bg c n m) ≡ (
          if (leb x a && ltb a (x + 8)) && (leb y b && ltb b (y + n))
          then shade (b - y) (a - x)
          else grab_colour s a b m)
  unfolding render_lines
  render_lines_pixels zero m a b n_le a_in b_in =
      let empty : ((leb x a && ltb a (x + 8)) && (leb y b && ltb b (y + 0))) ≡ false =
        ground arith in
      rw empty refl
  render_lines_pixels (suc n) m a b n_le a_in b_in =
      let before = render_lines glyphs s x y fg bg c n m in
      let earlier = render_lines_pixels n m a b (omega arith) a_in b_in in
      render_line_pixels n 8 before a b (omega arith) (omega arith) a_in b_in
      ∙ elim (Bool-cases (is_within x (y + n) 8 a b)) [
        | inl last ↦
            let line : b - y ≡ n = ground arith in
            let within : ((leb x a && ltb a (x + 8)) && (leb y b && ltb b (y + suc n))) ≡ true =
              ground arith in
            rw last (rw within (rw line refl))
        | inr off ↦
            let same : ((leb x a && ltb a (x + 8)) && (leb y b && ltb b (y + n)))
                ≡ ((leb x a && ltb a (x + 8)) && (leb y b && ltb b (y + suc n))) =
              ground arith in
            rw off (earlier ∙ rw same refl)
      ]

-- A character that is drawn inside a screen of 32 bits to the pixel leaves in its 8 by 8 cell the
-- foreground where the glyph has a bit, the lowest bit leftmost, and the background elsewhere; all
-- pixels outside the cell keep their colours.
pub render_char_pixels :
    (beyond : ℕ → ℕ) (s : Screen) (x y fg bg c : ℕ)
    → IsScreen s
    → x + 8 ≤ s.width
    → y + 8 ≤ s.height
    → fg < 2 ^ 32
    → bg < 2 ^ 32
    → (m : Bytes) (a b : ℕ) → a < s.width
    → b < s.height
    → grab_colour s a b (render_char beyond s x y fg bg c m) ≡ (
        if (leb x a && ltb a (x + 8)) && (leb y b && ltb b (y + 8))
        then if is_lit (font_byte beyond) c (b - y) (a - x) then fg else bg
        else grab_colour s a b m)
unfolding render_char
render_char_pixels beyond s x y fg bg c valid fits_x fits_y fg32 bg32 m a b a_in b_in =
    render_lines_pixels (font_byte beyond) s x y fg bg c valid fits_x fits_y fg32 bg32 8 m a b
      (omega arith) a_in b_in
