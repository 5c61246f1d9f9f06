-- ===== src/Libk/Bitmap.antt =====
-- lib/libk/memUtils.c: `set`, `clear` and `isset`, and the memory that they work on.
pub mod Laws
use seaweed.Base.{ℕ, ◌/◌, ◌%◌, ◌==◌, if◌then◌else◌, Bool, not, bit_and, bit_or}
use seaweed.Base.{u8, ◌<<<◌, ◌>>>◌, not32}

-- A `uint8_t *` is the bytes behind it, by offset; a load takes a cell at the width of a byte.
abbrev pub Bytes : Type 0
Bytes = ℕ → ℕ

abbrev pub load8 : Bytes → ℕ → ℕ
load8 m a = u8 (m a)

abbrev pub store8 : Bytes → ℕ → ℕ → Bytes
store8 m a v = λ k. if k == a then u8 v else m k

unfoldable pub set : Bytes → ℕ → Bytes
set bitmap location =
    store8 bitmap (location / 8) (bit_or (load8 bitmap (location / 8)) (1 <<< (location % 8)))

unfoldable pub clear : Bytes → ℕ → Bytes
clear bitmap location =
    store8 bitmap (location / 8)
      (bit_and (load8 bitmap (location / 8)) (not32 (1 <<< (location % 8))))

unfoldable pub isset : Bytes → ℕ → Bool
isset bitmap location = not (bit_and (load8 bitmap (location / 8) >>> (location % 8)) 0x1 == 0)
