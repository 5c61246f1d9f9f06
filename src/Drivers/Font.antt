-- ===== src/Drivers/Font.antt =====
-- kernel/drivers/font.h: the 8 by 8 glyphs of the first 128 characters, a byte per line of the glyph.
use seaweed.Base.{ℕ, ◌+◌, ◌-◌, ◌*◌, ltb, if◌then◌else◌, get_or, List, [], ◌∷◌, ◌++◌}

-- Characters 0 to 15.
abbrev pub glyphs0 : List (List ℕ)
glyphs0 =
    (0 ∷ 0 ∷ 0 ∷ 0 ∷ 0 ∷ 0 ∷ 0 ∷ 0 ∷ [])
    ∷ (0 ∷ 0 ∷ 0 ∷ 0 ∷ 0 ∷ 0 ∷ 0 ∷ 0 ∷ [])
    ∷ (0 ∷ 0 ∷ 0 ∷ 0 ∷ 0 ∷ 0 ∷ 0 ∷ 0 ∷ [])
    ∷ (0 ∷ 0 ∷ 0 ∷ 0 ∷ 0 ∷ 0 ∷ 0 ∷ 0 ∷ [])
    ∷ (0 ∷ 0 ∷ 0 ∷ 0 ∷ 0 ∷ 0 ∷ 0 ∷ 0 ∷ [])
    ∷ (0 ∷ 0 ∷ 0 ∷ 0 ∷ 0 ∷ 0 ∷ 0 ∷ 0 ∷ [])
    ∷ (0 ∷ 0 ∷ 0 ∷ 0 ∷ 0 ∷ 0 ∷ 0 ∷ 0 ∷ [])
    ∷ (0 ∷ 0 ∷ 0 ∷ 0 ∷ 0 ∷ 0 ∷ 0 ∷ 0 ∷ [])
    ∷ (0 ∷ 0 ∷ 0 ∷ 0 ∷ 0 ∷ 0 ∷ 0 ∷ 0 ∷ [])
    ∷ (0 ∷ 0 ∷ 0 ∷ 0 ∷ 0 ∷ 0 ∷ 0 ∷ 0 ∷ [])
    ∷ (0 ∷ 0 ∷ 0 ∷ 0 ∷ 0 ∷ 0 ∷ 0 ∷ 0 ∷ [])
    ∷ (0 ∷ 0 ∷ 0 ∷ 0 ∷ 0 ∷ 0 ∷ 0 ∷ 0 ∷ [])
    ∷ (0 ∷ 0 ∷ 0 ∷ 0 ∷ 0 ∷ 0 ∷ 0 ∷ 0 ∷ [])
    ∷ (0 ∷ 0 ∷ 0 ∷ 0 ∷ 0 ∷ 0 ∷ 0 ∷ 0 ∷ [])
    ∷ (0 ∷ 0 ∷ 0 ∷ 0 ∷ 0 ∷ 0 ∷ 0 ∷ 0 ∷ [])
    ∷ (0 ∷ 0 ∷ 0 ∷ 0 ∷ 0 ∷ 0 ∷ 0 ∷ 0 ∷ [])
    ∷ []

-- Characters 16 to 31.
abbrev pub glyphs1 : List (List ℕ)
glyphs1 =
    (0 ∷ 0 ∷ 0 ∷ 0 ∷ 0 ∷ 0 ∷ 0 ∷ 0 ∷ [])
    ∷ (0 ∷ 0 ∷ 0 ∷ 0 ∷ 0 ∷ 0 ∷ 0 ∷ 0 ∷ [])
    ∷ (0 ∷ 0 ∷ 0 ∷ 0 ∷ 0 ∷ 0 ∷ 0 ∷ 0 ∷ [])
    ∷ (0 ∷ 0 ∷ 0 ∷ 0 ∷ 0 ∷ 0 ∷ 0 ∷ 0 ∷ [])
    ∷ (0 ∷ 0 ∷ 0 ∷ 0 ∷ 0 ∷ 0 ∷ 0 ∷ 0 ∷ [])
    ∷ (0 ∷ 0 ∷ 0 ∷ 0 ∷ 0 ∷ 0 ∷ 0 ∷ 0 ∷ [])
    ∷ (0 ∷ 0 ∷ 0 ∷ 0 ∷ 0 ∷ 0 ∷ 0 ∷ 0 ∷ [])
    ∷ (0 ∷ 0 ∷ 0 ∷ 0 ∷ 0 ∷ 0 ∷ 0 ∷ 0 ∷ [])
    ∷ (0 ∷ 0 ∷ 0 ∷ 0 ∷ 0 ∷ 0 ∷ 0 ∷ 0 ∷ [])
    ∷ (0 ∷ 0 ∷ 0 ∷ 0 ∷ 0 ∷ 0 ∷ 0 ∷ 0 ∷ [])
    ∷ (0 ∷ 0 ∷ 0 ∷ 0 ∷ 0 ∷ 0 ∷ 0 ∷ 0 ∷ [])
    ∷ (0 ∷ 0 ∷ 0 ∷ 0 ∷ 0 ∷ 0 ∷ 0 ∷ 0 ∷ [])
    ∷ (0 ∷ 0 ∷ 0 ∷ 0 ∷ 0 ∷ 0 ∷ 0 ∷ 0 ∷ [])
    ∷ (0 ∷ 0 ∷ 0 ∷ 0 ∷ 0 ∷ 0 ∷ 0 ∷ 0 ∷ [])
    ∷ (0 ∷ 0 ∷ 0 ∷ 0 ∷ 0 ∷ 0 ∷ 0 ∷ 0 ∷ [])
    ∷ (0 ∷ 0 ∷ 0 ∷ 0 ∷ 0 ∷ 0 ∷ 0 ∷ 0 ∷ [])
    ∷ []

-- Characters 32 to 47.
abbrev pub glyphs2 : List (List ℕ)
glyphs2 =
    (0 ∷ 0 ∷ 0 ∷ 0 ∷ 0 ∷ 0 ∷ 0 ∷ 0 ∷ [])
    ∷ (0x18 ∷ 0x3c ∷ 0x3c ∷ 0x18 ∷ 0x18 ∷ 0 ∷ 0x18 ∷ 0 ∷ [])
    ∷ (0x36 ∷ 0x36 ∷ 0 ∷ 0 ∷ 0 ∷ 0 ∷ 0 ∷ 0 ∷ [])
    ∷ (0x36 ∷ 0x36 ∷ 0x7f ∷ 0x36 ∷ 0x7f ∷ 0x36 ∷ 0x36 ∷ 0 ∷ [])
    ∷ (0xc ∷ 0x3e ∷ 3 ∷ 0x1e ∷ 0x30 ∷ 0x1f ∷ 0xc ∷ 0 ∷ [])
    ∷ (0 ∷ 0x63 ∷ 0x33 ∷ 0x18 ∷ 0xc ∷ 0x66 ∷ 0x63 ∷ 0 ∷ [])
    ∷ (0x1c ∷ 0x36 ∷ 0x1c ∷ 0x6e ∷ 0x3b ∷ 0x33 ∷ 0x6e ∷ 0 ∷ [])
    ∷ (6 ∷ 6 ∷ 3 ∷ 0 ∷ 0 ∷ 0 ∷ 0 ∷ 0 ∷ [])
    ∷ (0x18 ∷ 0xc ∷ 6 ∷ 6 ∷ 6 ∷ 0xc ∷ 0x18 ∷ 0 ∷ [])
    ∷ (6 ∷ 0xc ∷ 0x18 ∷ 0x18 ∷ 0x18 ∷ 0xc ∷ 6 ∷ 0 ∷ [])
    ∷ (0 ∷ 0x66 ∷ 0x3c ∷ 0xff ∷ 0x3c ∷ 0x66 ∷ 0 ∷ 0 ∷ [])
    ∷ (0 ∷ 0xc ∷ 0xc ∷ 0x3f ∷ 0xc ∷ 0xc ∷ 0 ∷ 0 ∷ [])
    ∷ (0 ∷ 0 ∷ 0 ∷ 0 ∷ 0 ∷ 0xc ∷ 0xc ∷ 6 ∷ [])
    ∷ (0 ∷ 0 ∷ 0 ∷ 0x3f ∷ 0 ∷ 0 ∷ 0 ∷ 0 ∷ [])
    ∷ (0 ∷ 0 ∷ 0 ∷ 0 ∷ 0 ∷ 0xc ∷ 0xc ∷ 0 ∷ [])
    ∷ (0x60 ∷ 0x30 ∷ 0x18 ∷ 0xc ∷ 6 ∷ 3 ∷ 1 ∷ 0 ∷ [])
    ∷ []

-- Characters 48 to 63.
abbrev pub glyphs3 : List (List ℕ)
glyphs3 =
    (0x3e ∷ 0x63 ∷ 0x73 ∷ 0x7b ∷ 0x6f ∷ 0x67 ∷ 0x3e ∷ 0 ∷ [])
    ∷ (0xc ∷ 0xe ∷ 0xc ∷ 0xc ∷ 0xc ∷ 0xc ∷ 0x3f ∷ 0 ∷ [])
    ∷ (0x1e ∷ 0x33 ∷ 0x30 ∷ 0x1c ∷ 6 ∷ 0x33 ∷ 0x3f ∷ 0 ∷ [])
    ∷ (0x1e ∷ 0x33 ∷ 0x30 ∷ 0x1c ∷ 0x30 ∷ 0x33 ∷ 0x1e ∷ 0 ∷ [])
    ∷ (0x38 ∷ 0x3c ∷ 0x36 ∷ 0x33 ∷ 0x7f ∷ 0x30 ∷ 0x78 ∷ 0 ∷ [])
    ∷ (0x3f ∷ 3 ∷ 0x1f ∷ 0x30 ∷ 0x30 ∷ 0x33 ∷ 0x1e ∷ 0 ∷ [])
    ∷ (0x1c ∷ 6 ∷ 3 ∷ 0x1f ∷ 0x33 ∷ 0x33 ∷ 0x1e ∷ 0 ∷ [])
    ∷ (0x3f ∷ 0x33 ∷ 0x30 ∷ 0x18 ∷ 0xc ∷ 0xc ∷ 0xc ∷ 0 ∷ [])
    ∷ (0x1e ∷ 0x33 ∷ 0x33 ∷ 0x1e ∷ 0x33 ∷ 0x33 ∷ 0x1e ∷ 0 ∷ [])
    ∷ (0x1e ∷ 0x33 ∷ 0x33 ∷ 0x3e ∷ 0x30 ∷ 0x18 ∷ 0xe ∷ 0 ∷ [])
    ∷ (0 ∷ 0xc ∷ 0xc ∷ 0 ∷ 0 ∷ 0xc ∷ 0xc ∷ 0 ∷ [])
    ∷ (0 ∷ 0xc ∷ 0xc ∷ 0 ∷ 0 ∷ 0xc ∷ 0xc ∷ 6 ∷ [])
    ∷ (0x18 ∷ 0xc ∷ 6 ∷ 3 ∷ 6 ∷ 0xc ∷ 0x18 ∷ 0 ∷ [])
    ∷ (0 ∷ 0 ∷ 0x3f ∷ 0 ∷ 0 ∷ 0x3f ∷ 0 ∷ 0 ∷ [])
    ∷ (6 ∷ 0xc ∷ 0x18 ∷ 0x30 ∷ 0x18 ∷ 0xc ∷ 6 ∷ 0 ∷ [])
    ∷ (0x1e ∷ 0x33 ∷ 0x30 ∷ 0x18 ∷ 0xc ∷ 0 ∷ 0xc ∷ 0 ∷ [])
    ∷ []

-- Characters 64 to 79.
abbrev pub glyphs4 : List (List ℕ)
glyphs4 =
    (0x3e ∷ 0x63 ∷ 0x7b ∷ 0x7b ∷ 0x7b ∷ 3 ∷ 0x1e ∷ 0 ∷ [])
    ∷ (0xc ∷ 0x1e ∷ 0x33 ∷ 0x33 ∷ 0x3f ∷ 0x33 ∷ 0x33 ∷ 0 ∷ [])
    ∷ (0x3f ∷ 0x66 ∷ 0x66 ∷ 0x3e ∷ 0x66 ∷ 0x66 ∷ 0x3f ∷ 0 ∷ [])
    ∷ (0x3c ∷ 0x66 ∷ 3 ∷ 3 ∷ 3 ∷ 0x66 ∷ 0x3c ∷ 0 ∷ [])
    ∷ (0x1f ∷ 0x36 ∷ 0x66 ∷ 0x66 ∷ 0x66 ∷ 0x36 ∷ 0x1f ∷ 0 ∷ [])
    ∷ (0x7f ∷ 0x46 ∷ 0x16 ∷ 0x1e ∷ 0x16 ∷ 0x46 ∷ 0x7f ∷ 0 ∷ [])
    ∷ (0x7f ∷ 0x46 ∷ 0x16 ∷ 0x1e ∷ 0x16 ∷ 6 ∷ 0xf ∷ 0 ∷ [])
    ∷ (0x3c ∷ 0x66 ∷ 3 ∷ 3 ∷ 0x73 ∷ 0x66 ∷ 0x7c ∷ 0 ∷ [])
    ∷ (0x33 ∷ 0x33 ∷ 0x33 ∷ 0x3f ∷ 0x33 ∷ 0x33 ∷ 0x33 ∷ 0 ∷ [])
    ∷ (0x1e ∷ 0xc ∷ 0xc ∷ 0xc ∷ 0xc ∷ 0xc ∷ 0x1e ∷ 0 ∷ [])
    ∷ (0x78 ∷ 0x30 ∷ 0x30 ∷ 0x30 ∷ 0x33 ∷ 0x33 ∷ 0x1e ∷ 0 ∷ [])
    ∷ (0x67 ∷ 0x66 ∷ 0x36 ∷ 0x1e ∷ 0x36 ∷ 0x66 ∷ 0x67 ∷ 0 ∷ [])
    ∷ (0xf ∷ 6 ∷ 6 ∷ 6 ∷ 0x46 ∷ 0x66 ∷ 0x7f ∷ 0 ∷ [])
    ∷ (0x63 ∷ 0x77 ∷ 0x7f ∷ 0x7f ∷ 0x6b ∷ 0x63 ∷ 0x63 ∷ 0 ∷ [])
    ∷ (0x63 ∷ 0x67 ∷ 0x6f ∷ 0x7b ∷ 0x73 ∷ 0x63 ∷ 0x63 ∷ 0 ∷ [])
    ∷ (0x1c ∷ 0x36 ∷ 0x63 ∷ 0x63 ∷ 0x63 ∷ 0x36 ∷ 0x1c ∷ 0 ∷ [])
    ∷ []

-- Characters 80 to 95.
abbrev pub glyphs5 : List (List ℕ)
glyphs5 =
    (0x3f ∷ 0x66 ∷ 0x66 ∷ 0x3e ∷ 6 ∷ 6 ∷ 0xf ∷ 0 ∷ [])
    ∷ (0x1e ∷ 0x33 ∷ 0x33 ∷ 0x33 ∷ 0x3b ∷ 0x1e ∷ 0x38 ∷ 0 ∷ [])
    ∷ (0x3f ∷ 0x66 ∷ 0x66 ∷ 0x3e ∷ 0x36 ∷ 0x66 ∷ 0x67 ∷ 0 ∷ [])
    ∷ (0x1e ∷ 0x33 ∷ 7 ∷ 0xe ∷ 0x38 ∷ 0x33 ∷ 0x1e ∷ 0 ∷ [])
    ∷ (0x3f ∷ 0x2d ∷ 0xc ∷ 0xc ∷ 0xc ∷ 0xc ∷ 0x1e ∷ 0 ∷ [])
    ∷ (0x33 ∷ 0x33 ∷ 0x33 ∷ 0x33 ∷ 0x33 ∷ 0x33 ∷ 0x3f ∷ 0 ∷ [])
    ∷ (0x33 ∷ 0x33 ∷ 0x33 ∷ 0x33 ∷ 0x33 ∷ 0x1e ∷ 0xc ∷ 0 ∷ [])
    ∷ (0x63 ∷ 0x63 ∷ 0x63 ∷ 0x6b ∷ 0x7f ∷ 0x77 ∷ 0x63 ∷ 0 ∷ [])
    ∷ (0x63 ∷ 0x63 ∷ 0x36 ∷ 0x1c ∷ 0x1c ∷ 0x36 ∷ 0x63 ∷ 0 ∷ [])
    ∷ (0x33 ∷ 0x33 ∷ 0x33 ∷ 0x1e ∷ 0xc ∷ 0xc ∷ 0x1e ∷ 0 ∷ [])
    ∷ (0x7f ∷ 0x63 ∷ 0x31 ∷ 0x18 ∷ 0x4c ∷ 0x66 ∷ 0x7f ∷ 0 ∷ [])
    ∷ (0x1e ∷ 6 ∷ 6 ∷ 6 ∷ 6 ∷ 6 ∷ 0x1e ∷ 0 ∷ [])
    ∷ (3 ∷ 6 ∷ 0xc ∷ 0x18 ∷ 0x30 ∷ 0x60 ∷ 0x40 ∷ 0 ∷ [])
    ∷ (0x1e ∷ 0x18 ∷ 0x18 ∷ 0x18 ∷ 0x18 ∷ 0x18 ∷ 0x1e ∷ 0 ∷ [])
    ∷ (8 ∷ 0x1c ∷ 0x36 ∷ 0x63 ∷ 0 ∷ 0 ∷ 0 ∷ 0 ∷ [])
    ∷ (0 ∷ 0 ∷ 0 ∷ 0 ∷ 0 ∷ 0 ∷ 0 ∷ 0xff ∷ [])
    ∷ []

-- Characters 96 to 111.
abbrev pub glyphs6 : List (List ℕ)
glyphs6 =
    (0xc ∷ 0xc ∷ 0x18 ∷ 0 ∷ 0 ∷ 0 ∷ 0 ∷ 0 ∷ [])
    ∷ (0 ∷ 0 ∷ 0x1e ∷ 0x30 ∷ 0x3e ∷ 0x33 ∷ 0x6e ∷ 0 ∷ [])
    ∷ (7 ∷ 6 ∷ 6 ∷ 0x3e ∷ 0x66 ∷ 0x66 ∷ 0x3b ∷ 0 ∷ [])
    ∷ (0 ∷ 0 ∷ 0x1e ∷ 0x33 ∷ 3 ∷ 0x33 ∷ 0x1e ∷ 0 ∷ [])
    ∷ (0x38 ∷ 0x30 ∷ 0x30 ∷ 0x3e ∷ 0x33 ∷ 0x33 ∷ 0x6e ∷ 0 ∷ [])
    ∷ (0 ∷ 0 ∷ 0x1e ∷ 0x33 ∷ 0x3f ∷ 3 ∷ 0x1e ∷ 0 ∷ [])
    ∷ (0x1c ∷ 0x36 ∷ 6 ∷ 0xf ∷ 6 ∷ 6 ∷ 0xf ∷ 0 ∷ [])
    ∷ (0 ∷ 0 ∷ 0x6e ∷ 0x33 ∷ 0x33 ∷ 0x3e ∷ 0x30 ∷ 0x1f ∷ [])
    ∷ (7 ∷ 6 ∷ 0x36 ∷ 0x6e ∷ 0x66 ∷ 0x66 ∷ 0x67 ∷ 0 ∷ [])
    ∷ (0xc ∷ 0 ∷ 0xe ∷ 0xc ∷ 0xc ∷ 0xc ∷ 0x1e ∷ 0 ∷ [])
    ∷ (0x30 ∷ 0 ∷ 0x30 ∷ 0x30 ∷ 0x30 ∷ 0x33 ∷ 0x33 ∷ 0x1e ∷ [])
    ∷ (7 ∷ 6 ∷ 0x66 ∷ 0x36 ∷ 0x1e ∷ 0x36 ∷ 0x67 ∷ 0 ∷ [])
    ∷ (0xe ∷ 0xc ∷ 0xc ∷ 0xc ∷ 0xc ∷ 0xc ∷ 0x1e ∷ 0 ∷ [])
    ∷ (0 ∷ 0 ∷ 0x33 ∷ 0x7f ∷ 0x7f ∷ 0x6b ∷ 0x63 ∷ 0 ∷ [])
    ∷ (0 ∷ 0 ∷ 0x1f ∷ 0x33 ∷ 0x33 ∷ 0x33 ∷ 0x33 ∷ 0 ∷ [])
    ∷ (0 ∷ 0 ∷ 0x1e ∷ 0x33 ∷ 0x33 ∷ 0x33 ∷ 0x1e ∷ 0 ∷ [])
    ∷ []

-- Characters 112 to 127.
abbrev pub glyphs7 : List (List ℕ)
glyphs7 =
    (0 ∷ 0 ∷ 0x3b ∷ 0x66 ∷ 0x66 ∷ 0x3e ∷ 6 ∷ 0xf ∷ [])
    ∷ (0 ∷ 0 ∷ 0x6e ∷ 0x33 ∷ 0x33 ∷ 0x3e ∷ 0x30 ∷ 0x78 ∷ [])
    ∷ (0 ∷ 0 ∷ 0x3b ∷ 0x6e ∷ 0x66 ∷ 6 ∷ 0xf ∷ 0 ∷ [])
    ∷ (0 ∷ 0 ∷ 0x3e ∷ 3 ∷ 0x1e ∷ 0x30 ∷ 0x1f ∷ 0 ∷ [])
    ∷ (8 ∷ 0xc ∷ 0x3e ∷ 0xc ∷ 0xc ∷ 0x2c ∷ 0x18 ∷ 0 ∷ [])
    ∷ (0 ∷ 0 ∷ 0x33 ∷ 0x33 ∷ 0x33 ∷ 0x33 ∷ 0x6e ∷ 0 ∷ [])
    ∷ (0 ∷ 0 ∷ 0x33 ∷ 0x33 ∷ 0x33 ∷ 0x1e ∷ 0xc ∷ 0 ∷ [])
    ∷ (0 ∷ 0 ∷ 0x63 ∷ 0x6b ∷ 0x7f ∷ 0x7f ∷ 0x36 ∷ 0 ∷ [])
    ∷ (0 ∷ 0 ∷ 0x63 ∷ 0x36 ∷ 0x1c ∷ 0x36 ∷ 0x63 ∷ 0 ∷ [])
    ∷ (0 ∷ 0 ∷ 0x33 ∷ 0x33 ∷ 0x33 ∷ 0x3e ∷ 0x30 ∷ 0x1f ∷ [])
    ∷ (0 ∷ 0 ∷ 0x3f ∷ 0x19 ∷ 0xc ∷ 0x26 ∷ 0x3f ∷ 0 ∷ [])
    ∷ (0x38 ∷ 0xc ∷ 0xc ∷ 7 ∷ 0xc ∷ 0xc ∷ 0x38 ∷ 0 ∷ [])
    ∷ (0x18 ∷ 0x18 ∷ 0x18 ∷ 0 ∷ 0x18 ∷ 0x18 ∷ 0x18 ∷ 0 ∷ [])
    ∷ (7 ∷ 0xc ∷ 0xc ∷ 0x38 ∷ 0xc ∷ 0xc ∷ 7 ∷ 0 ∷ [])
    ∷ (0x6e ∷ 0x3b ∷ 0 ∷ 0 ∷ 0 ∷ 0 ∷ 0 ∷ 0 ∷ [])
    ∷ (0 ∷ 0 ∷ 0 ∷ 0 ∷ 0 ∷ 0 ∷ 0 ∷ 0 ∷ [])
    ∷ []

-- `font[128][8]`
abbrev pub font : List (List ℕ)
font = glyphs0 ++ glyphs1 ++ glyphs2 ++ glyphs3 ++ glyphs4 ++ glyphs5 ++ glyphs6 ++ glyphs7

-- The byte `font[c][i]`; `beyond` holds the bytes that lie behind the table.
unfoldable pub font_byte : (ℕ → ℕ) → ℕ → ℕ → ℕ
font_byte beyond c i =
    if ltb c 128 then get_or (get_or font c []) i 0 else beyond ((c - 128) * 8 + i)
