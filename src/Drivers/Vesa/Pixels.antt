-- ===== src/Drivers/Vesa/Pixels.antt =====
-- A pixel that is drawn is read back, and the pixels of a screen do not overlap.
use seaweed.Base.{
  ℕ, suc, ◌+◌, ◌*◌, ◌^◌, ◌<◌, ◌≤◌, ◌≡◌, refl, arith, ◌==◌, if◌then◌else◌, false, ltb, ltb→lt,
}
use seaweed.Base.{Bool-cases, inl, inr, ◌⊎◌, ◌&&◌, sym, ◌∙◌}
use seaweed.Base.{u16, u32}
use native.Mathlib.Nat.{mul-le-mul_right}
use seaweed.Mm.Layout.{high_vma}
use seaweed.Drivers.Vesa.{Screen, Bytes, store32, load32, pixel_at, set_pixel, grab_colour}

load32-store32 : (m : Bytes) (a v : ℕ) → v < 2 ^ 32 → load32 (store32 m a v) a ≡ v
unfolding store32 load32
load32-store32 m a v fits = ground arith

load32-store32_apart :
    (m : Bytes) (a b v : ℕ) → (a + 4 ≤ b) ⊎ (b + 4 ≤ a) → load32 (store32 m a v) b ≡ load32 m b
unfolding store32 load32
load32-store32_apart m a b v (inl below) = ground arith
load32-store32_apart m a b v (inr above) = ground arith

-- A screen of 32 bits to the pixel whose lines do not overlap and whose size fits an `int`.
abbrev pub IsScreen : Screen → Type 0
IsScreen s =
    (s.bpp ≡ 32)
    × (s.width * 4 ≤ s.pitch)
    × (s.width ≤ 2 ^ 15)
    × (s.height ≤ 2 ^ 15)
    × (s.height * s.pitch < 2 ^ 31)
    × (s.framebuffer < 2 ^ 32)

lines_apart : (b p y z : ℕ) → y < z → b ≤ p → y * p + b ≤ z * p
lines_apart b p y z lt le = let above : suc y ≤ z = lt in omega (arith, mul-le-mul_right p above)

-- The offset of a pixel in the frame buffer.
abbrev pub offset : Screen → ℕ → ℕ → ℕ
offset s x y = y * s.pitch + x * 4

offset_bound :
    (s : Screen) (x y : ℕ)
    → IsScreen s
    → x < s.width
    → y < s.height
    → offset s x y + 4 ≤ s.height * s.pitch
offset_bound s x y (deep, wide, _, _, _, _) in_line in_height =
    omega (arith, lines_apart (x * 4 + 4) s.pitch y s.height in_height (omega arith))

pixel_at-offset :
    (s : Screen) (x y : ℕ)
    → IsScreen s
    → x < s.width
    → y < s.height
    → pixel_at s x y ≡ s.framebuffer + high_vma + offset s x y
unfolding pixel_at
pixel_at-offset s x y (deep, wide, w15, h15, size, frame) in_line in_height =
    let bound = offset_bound s x y (deep, wide, w15, h15, size, frame) in_line in_height in
    rw deep (omega arith)

offset_apart :
    (s : Screen) (x y a b : ℕ)
    → IsScreen s
    → x < s.width
    → a < s.width
    → ((x ≡ a) × (y ≡ b)) ⊎ ((offset s x y + 4 ≤ offset s a b) ⊎ (offset s a b + 4 ≤ offset s x y))
offset_apart s x y a b (_, wide, _, _, _, _) x_in a_in = elim (Bool-cases (ltb y b)) [
  | inl above ↦
      inr
        (inl (omega (arith, lines_apart (x * 4 + 4) s.pitch y b (ltb→lt y b above) (omega arith))))
  | inr not_above ↦ elim (Bool-cases (ltb b y)) [
    | inl below ↦
        inr (
          inr (omega (arith, lines_apart (a * 4 + 4) s.pitch b y (ltb→lt b y below) (omega arith))))
    | inr not_below ↦
        let level : y ≡ b = ground arith in
        rw level (elim (Bool-cases (x == a)) [
          | inl same ↦ inl (ground arith, refl)
          | inr other ↦ elim (Bool-cases (ltb x a)) [
            | inl left ↦ inr (inl (ground arith))
            | inr right ↦ inr (inr (ground arith))
          ]
        ])
  ]
]

apart_differ :
    (s : Screen) (x y a b : ℕ)
    → (offset s x y + 4 ≤ offset s a b) ⊎ (offset s a b + 4 ≤ offset s x y)
    → ((a == x) && (b == y)) ≡ false
apart_differ s x y a b apart = elim (Bool-cases ((a == x) && (b == y))) [
  | inl same ↦
      let column : x ≡ a = ground arith in
      let level : y ≡ b = ground arith in
      let equal : offset s x y ≡ offset s a b = rw column (rw level refl) in
      elim apart [
        | inl l ↦ absurd (omega (arith, l, equal))
        | inr r ↦ absurd (omega (arith, r, equal))
      ]
  | inr differ ↦ differ
]

-- On a screen of 32 bits to the pixel, a pixel that is set is read back, and every other pixel of
-- the screen keeps its colour.
pub grab_colour-set_pixel :
    (s : Screen) (x y a b colour : ℕ) (m : Bytes)
    → IsScreen s
    → x < s.width
    → y < s.height
    → a < s.width
    → b < s.height
    → colour < 2 ^ 32
    → grab_colour s a b (set_pixel s x y colour m)
      ≡ (if (a == x) && (b == y) then colour else grab_colour s a b m)
unfolding grab_colour set_pixel
grab_colour-set_pixel s x y a b colour m (deep, wide, w15, h15, size, frame) x_in y_in a_in b_in
      fits =
    let valid : IsScreen s = (deep, wide, w15, h15, size, frame) in
    let x16 : u16 x ≡ x = omega arith in
    let y16 : u16 y ≡ y = omega arith in
    let a16 : u16 a ≡ a = omega arith in
    let b16 : u16 b ≡ b = omega arith in
    let c32 : u32 colour ≡ colour = omega arith in
    rw x16 (
      rw y16 (
        rw a16 (
          rw b16 (
            rw c32 (elim (offset_apart s x y a b valid x_in a_in) [
              | inl (column, level) ↦
                  rw (sym column)
                    (rw (sym level) (load32-store32 m (pixel_at s x y) colour fits ∙ ground arith))
              | inr apart ↦ rw (pixel_at-offset s x y valid x_in y_in) (
                  rw (pixel_at-offset s a b valid a_in b_in) (
                    load32-store32_apart m (s.framebuffer + high_vma + offset s x y)
                      (s.framebuffer + high_vma + offset s a b) colour
                      (elim apart [
                        | inl l ↦ inl (omega (arith, l))
                        | inr r ↦ inr (omega (arith, r))
                      ])
                    ∙ rw (apart_differ s x y a b apart) refl))
            ])))))
