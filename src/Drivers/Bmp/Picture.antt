-- ===== src/Drivers/Bmp/Picture.antt =====
-- Where the pixels of a picture go (kernel/drivers/bmp.c, drawBmp).
use seaweed.Base.{
  ℕ, zero, suc, ◌+◌, ◌-◌, ◌*◌, ◌^◌, ◌<◌, ◌≤◌, ◌≡◌, arith, ◌==◌, if◌then◌else◌, ltb, leb,
}
use seaweed.Base.{Bool-cases, inl, inr, ◌&&◌, ap, ◌∙◌}
use seaweed.Base.{u32, u64}
use seaweed.Libk.Bitmap.{Bytes}
use seaweed.Drivers.Vesa.{Screen, set_pixel, grab_colour}
use seaweed.Drivers.Vesa.Pixels.{IsScreen, grab_colour-set_pixel}
use seaweed.Drivers.Bmp.{draw_line, draw_lines}

module _ (s : Screen) (words : ℕ → ℕ) (valid : IsScreen s) (wide : 1024 ≤ s.width)
    (fits : (k : ℕ) → words k < 2 ^ 32) (a b : ℕ) (a_in : a < s.width) (b_in : b < s.height) where
  draw_line_pixels :
      (left i y j : ℕ) (m : Bytes)
      → j + left ≤ 1024
      → y < s.height
      → grab_colour s a b (draw_line s words i y left j m) ≡ (
          if (leb j a && ltb a (j + left)) && (b == y)
          then words (a + u32 (i * 1024))
          else grab_colour s a b m)
  unfolding draw_line
  draw_line_pixels zero i y j m le y_in = ground arith
  draw_line_pixels (suc left) i y j m le y_in =
      let colour = words (j + u32 (i * 1024)) in
      let pixel =
        grab_colour-set_pixel s j y a b colour m valid (omega arith) y_in a_in b_in (fits _) in
      let ih = draw_line_pixels left i y (j + 1) (set_pixel s j y colour m) (omega arith) y_in in
      ih ∙ elim (Bool-cases ((a == j) && (b == y))) [
        | inl hit ↦
            let same : j ≡ a = ground arith in
            let value : words (j + u32 (i * 1024)) ≡ words (a + u32 (i * 1024)) =
              ap (λ (k : ℕ). words (k + u32 (i * 1024))) same in
            ground (arith, pixel, value)
        | inr miss ↦ ground (arith, pixel)
      ]

  draw_lines_pixels :
      (left i y : ℕ) (m : Bytes)
      → left ≤ y
      → y < s.height
      → i + left < 2 ^ 20
      → grab_colour s a b (draw_lines s words left i y m) ≡ (
          if ltb a 1024 && (ltb y (b + left) && leb b y)
          then words (a + (i + (y - b)) * 1024)
          else grab_colour s a b m)
  unfolding draw_lines
  draw_lines_pixels zero i y m le y_in few = ground arith
  draw_lines_pixels (suc left) i y m le y_in few =
      let up : u64 (y + 2 ^ 64 - 1) ≡ y - 1 =
        let (_, _, _, h15, _, _) = valid in omega (arith, h15) in
      let line = draw_line_pixels 1024 i y 0 m (omega arith) y_in in
      let ih =
        draw_lines_pixels left (i + 1) (y - 1) (draw_line s words i y 1024 0 m) (omega arith)
          (omega arith) (omega arith) in
      rw up (
        ih ∙ elim (Bool-cases (b == y)) [
          | inl level ↦
              let place : a + u32 (i * 1024) ≡ a + (i + (y - b)) * 1024 = ground arith in
              ground (arith, line, ap words place)
          | inr other ↦ elim (Bool-cases (ltb b y)) [
            | inl above ↦
                let place : a + (i + 1 + (y - 1 - b)) * 1024 ≡ a + (i + (y - b)) * 1024 =
                  ground arith in
                ground (arith, line, ap words place)
            | inr below ↦ ground (arith, line)
          ]
        ])

-- What drawBmp draws on a 32-bit screen of at least 1024 pixels a line and more lines than the picture
-- has: it takes the words of the file 1024 to a line, whatever width the header gives, so the picture is
-- right only where it is 1024 wide. The first 1024 words appear from the left on the line of the number
-- of the height, the next on the line above, and so up to line 1; every other pixel is as it was, line 0
-- among them.
pub draw_lines_picture :
    (s : Screen) (words : ℕ → ℕ) (height a b : ℕ) (m : Bytes)
    → IsScreen s
    → 1024 ≤ s.width
    → ((k : ℕ) → words k < 2 ^ 32)
    → height < s.height
    → a < s.width
    → b < s.height
    → grab_colour s a b (draw_lines s words height 0 height m) ≡ (
        if ltb a 1024 && (ltb 0 b && leb b height)
        then words (a + (height - b) * 1024)
        else grab_colour s a b m)
draw_lines_picture s words height a b m valid wide fits inside a_in b_in =
    let (_, _, _, h15, _, _) = valid in
    draw_lines_pixels s words valid wide fits a b a_in b_in height 0 height m (omega arith) inside
      (omega (arith, h15))
    ∙ ground arith
