-- ===== src/Drivers/Bmp.antt =====
-- kernel/drivers/bmp.c and bmp.h: a picture is read from the disk and drawn line by line.
pub mod Picture
use seaweed.Base.{
  ℕ, zero, suc, ◌+◌, ◌-◌, ◌*◌, ◌/◌, ◌%◌, ◌^◌, ◌<◌, ◌≤◌, ◌≡◌, ◌≢◌, refl, arith, ◌==◌, if◌then◌else◌,
  Bool, true, false, ltb, leb, ==_iff, ltb→lt, leb→le, lt→ltb,
}
use seaweed.Base.{
  Bool-cases, Option-cases, inl, inr, ◌⊎◌, ◌↔◌, not, ◌&&◌, ◌||◌, Option, none, some, ◌>>=◌, sym, ap,
  ◌∙◌, List, [], ◌∷◌, ◌++◌, map,
}
use seaweed.Base.{
  u8, u16, u32, u64, ◌<<<◌, ◌>>>◌, bit_and, bit_or, bit_xor, not32, length, get_elem?, get_or, take,
  drop, replicate, update,
}
use seaweed.Libk.Bitmap.{Bytes}
use seaweed.Mm.Layout.{high_vma}
use seaweed.Mm.Frames.{Frames, physical_page_alloc}
use seaweed.Drivers.Ahci.{HbaPorts, Ahci}
use seaweed.Fs.Bfs.{transfer}
use seaweed.Drivers.Vesa.{Screen, set_pixel}

-- `bmpFileHdr_t`
pub record BmpFileHdr : Type 0 where
  pub bf_type : ℕ
  pub bf_size : ℕ
  pub reserved : ℕ
  pub bf_offset : ℕ
  pub bi_size : ℕ
  pub bi_width : ℕ
  pub bi_height : ℕ
  pub bi_planes : ℕ
  pub bi_bit_count : ℕ
  pub bi_compression : ℕ
  pub bi_size_image : ℕ
  pub bi_x_pel_per_meter : ℕ
  pub bi_y_pel_per_meter : ℕ
  pub bi_clr_used : ℕ
  pub bi_clr_important : ℕ
  pub red_mask : ℕ
  pub green_mask : ℕ
  pub blue_mask : ℕ

-- The inner loop, for line `i` of the file on line `y` of the screen; `left` pixels remain from `j` on.
unfoldable pub draw_line : Screen → (ℕ → ℕ) → ℕ → ℕ → ℕ → ℕ → Bytes → Bytes
draw_line s words i y zero j m = m
draw_line s words i y (suc left) j m =
    draw_line s words i y left (j + 1) (set_pixel s j y (words (j + u32 (i * 1024))) m)

-- The outer loop: the file's first line is the lowest.
unfoldable pub draw_lines : Screen → (ℕ → ℕ) → ℕ → ℕ → ℕ → Bytes → Bytes
draw_lines s words zero i y m = m
draw_lines s words (suc left) i y m =
    draw_lines s words left (i + 1) (u64 (y + 2 ^ 64 - 1)) (draw_line s words i y 1024 0 m)

-- `drawBmp`, which does not look at the file's name; `header` and `words` are what the memory holds,
-- `words` from the offset of the pixels on.
unfoldable pub draw_bmp :
    (HbaPorts → HbaPorts)
    → ℕ
    → Ahci
    → Frames
    → Screen
    → BmpFileHdr
    → (ℕ → ℕ)
    → Bytes
    → Option (Ahci × Frames × Bytes)
draw_bmp device fuel a f s header words m =
    let (f1, at) = physical_page_alloc f 0x300 in
    transfer device fuel (a.drive 0) false (0x300 * 8 + 2) 0x7800 (u64 (at + high_vma)) a >>= λ a1.
    some (a1, f1, draw_lines s words header.bi_height 0 header.bi_height m)
