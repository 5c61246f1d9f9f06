-- ===== src/Libk/Memory.antt =====
-- lib/libk/memUtils.c: the `memset` and `memcpy` family, one loop for each width.
pub mod Laws
use seaweed.Base.{
  ℕ, zero, suc, ◌+◌, ◌-◌, ◌*◌, ◌/◌, ◌%◌, ◌^◌, ◌<◌, ◌≤◌, ◌≡◌, ◌≢◌, refl, arith, ◌==◌, if◌then◌else◌,
  Bool, true, false, ltb, leb, ==_iff, ltb→lt, leb→le, lt→ltb,
}
use seaweed.Base.{
  Bool-cases, Option-cases, inl, inr, ◌⊎◌, ◌↔◌, not, ◌&&◌, ◌||◌, Option, none, some, sym, ap, ◌∙◌,
  List, [], ◌∷◌, ◌++◌, map,
}
use seaweed.Base.{
  u8, u16, u32, u64, ◌<<<◌, ◌>>>◌, bit_and, bit_or, bit_xor, not32, length, get_elem?, get_or, take,
  drop, replicate, update,
}

-- Memory as cells of one width, by cell index: a pointer is its address in cells.
abbrev pub Cells : Type 0
Cells = ℕ → ℕ

-- `for(i = 0; i < count; i++) *src++ = data`
unfoldable pub fill : Cells → ℕ → ℕ → ℕ → Cells
fill m src value zero = m
fill m src value (suc left) = fill (update m src value) (src + 1) value left

unfoldable pub memset8 : Cells → ℕ → ℕ → ℕ → Cells
memset8 m src value count = fill m src (u8 value) count

unfoldable pub memset16 : Cells → ℕ → ℕ → ℕ → Cells
memset16 m src value count = fill m src (u16 value) count

unfoldable pub memset32 : Cells → ℕ → ℕ → ℕ → Cells
memset32 m src value count = fill m src (u32 value) count

unfoldable pub memset64 : Cells → ℕ → ℕ → ℕ → Cells
memset64 m src value count = fill m src (u64 value) count

-- `rep stosb` stores the low byte of rax.
unfoldable pub memset : Cells → ℕ → ℕ → ℕ → Cells
memset m src value count = fill m src (u8 value) count

-- `for(i = 0; i < count; i++) dest[i] = src[i]`, upwards, in one memory: the two may overlap.
unfoldable pub copy : Cells → ℕ → ℕ → ℕ → Cells
copy m dest src zero = m
copy m dest src (suc left) = copy (update m dest (m src)) (dest + 1) (src + 1) left

unfoldable pub memcpy8 : Cells → ℕ → ℕ → ℕ → Cells
memcpy8 m dest src count = copy m dest src count

unfoldable pub memcpy16 : Cells → ℕ → ℕ → ℕ → Cells
memcpy16 m dest src count = copy m dest src count

unfoldable pub memcpy32 : Cells → ℕ → ℕ → ℕ → Cells
memcpy32 m dest src count = copy m dest src count

unfoldable pub memcpy64 : Cells → ℕ → ℕ → ℕ → Cells
memcpy64 m dest src count = copy m dest src count
