-- ===== src/Drivers/Vesa.antt =====
-- kernel/drivers/vesa.c: the pixels of the frame buffer and the drawing of a character.
pub mod Pixels
pub mod Laws
use seaweed.Base.{
  ℕ, zero, suc, ◌+◌, ◌-◌, ◌*◌, ◌/◌, ◌%◌, ◌^◌, ◌<◌, ◌≤◌, ◌≡◌, ◌≢◌, refl, arith, ◌==◌, if◌then◌else◌,
  Bool, true, false, ltb, leb, ==_iff, ltb→lt, leb→le, lt→ltb,
}
use seaweed.Base.{
  Bool-cases, Option-cases, inl, inr, ◌⊎◌, ◌↔◌, not, ◌&&◌, ◌||◌, Option, none, some, sym, ap, ◌∙◌,
  List, [], ◌∷◌, ◌++◌, map,
}
use seaweed.Base.{
  u8, u16, u32, u64, ◌<<<◌, ◌>>>◌, bit_and, bit_or, bit_xor, not32, length, get_elem?, get_or, take,
  drop, replicate, update,
}
use seaweed.Mm.Layout.{high_vma}
use seaweed.Drivers.Font.{font_byte}

-- `bproto_t`, what the boot loader passes on.
pub record Bproto : Type 0 where
  pub mmap_address : ℕ
  pub mmap_entries : ℕ
  pub rsdp : ℕ
  pub pitch : ℕ
  pub width : ℕ
  pub height : ℕ
  pub bpp : ℕ
  pub framebuffer : ℕ

-- The variables of vesa.c.
pub record Screen : Type 0 where
  pub height : ℕ
  pub width : ℕ
  pub pitch : ℕ
  pub bpp : ℕ
  pub framebuffer : ℕ

abbrev pub init_vesa : Bproto → Screen
init_vesa b = record {
  height = b.height;
  width = b.width;
  pitch = b.pitch;
  bpp = b.bpp;
  framebuffer = b.framebuffer;
}

-- Memory, by the byte.
abbrev pub Bytes : Type 0
Bytes = ℕ → ℕ

-- A 32-bit store and load, the low byte first.
unfoldable pub store32 : Bytes → ℕ → ℕ → Bytes
store32 m a v =
    update (update (update (update m a (u8 v)) (a + 1) (u8 (v >>> 8))) (a + 2) (u8 (v >>> 16)))
      (a + 3) (u8 (v >>> 24))

unfoldable pub load32 : Bytes → ℕ → ℕ
load32 m a = m a + m (a + 1) * 2 ^ 8 + m (a + 2) * 2 ^ 16 + m (a + 3) * 2 ^ 24

-- The address of a pixel. The offset is an `int` of the source, which a screen fits.
unfoldable pub pixel_at : Screen → ℕ → ℕ → ℕ
pixel_at s x y = u64 (s.framebuffer + high_vma + (y * s.pitch + x * s.bpp / 8))

unfoldable pub set_pixel : Screen → ℕ → ℕ → ℕ → Bytes → Bytes
set_pixel s x y colour m = store32 m (pixel_at s (u16 x) (u16 y)) (u32 colour)

unfoldable pub grab_colour : Screen → ℕ → ℕ → Bytes → ℕ
grab_colour s x y m = load32 m (pixel_at s (u16 x) (u16 y))

-- `(font[c][i] >> j) & 1`
abbrev pub is_lit : (ℕ → ℕ → ℕ) → ℕ → ℕ → ℕ → Bool
is_lit glyphs c i j = ((glyphs (u8 c) i >>> j) % 2) == 1

-- The first `n` pixels of line `i` of a character. `glyphs` is the table `font`.
unfoldable pub render_line : (ℕ → ℕ → ℕ) → Screen → ℕ → ℕ → ℕ → ℕ → ℕ → ℕ → ℕ → Bytes → Bytes
render_line glyphs s x y fg bg c i zero m = m
render_line glyphs s x y fg bg c i (suc j) m =
    set_pixel s (j + x) (y + i) (if is_lit glyphs c i j then fg else bg)
      (render_line glyphs s x y fg bg c i j m)

-- The first `n` lines of a character.
unfoldable pub render_lines : (ℕ → ℕ → ℕ) → Screen → ℕ → ℕ → ℕ → ℕ → ℕ → ℕ → Bytes → Bytes
render_lines glyphs s x y fg bg c zero m = m
render_lines glyphs s x y fg bg c (suc i) m =
    render_line glyphs s x y fg bg c i 8 (render_lines glyphs s x y fg bg c i m)

-- `beyond` holds the bytes that lie behind the table `font`.
unfoldable pub render_char : (ℕ → ℕ) → Screen → ℕ → ℕ → ℕ → ℕ → ℕ → Bytes → Bytes
render_char beyond s x y fg bg c m = render_lines (font_byte beyond) s x y fg bg c 8 m
