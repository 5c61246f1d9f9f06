-- ===== src/Mm/Run.antt =====
-- The loops that `physicalPageAlloc` and `kmalloc` write out in the same form: the first clear bit
-- of a bitmap, the search for a run of clear bits, and the marking of a run.
pub mod Laws
use seaweed.Base.{ℕ, zero, suc, ◌+◌, ◌*◌, ◌==◌, if◌then◌else◌, Option, none, some, u64}
use seaweed.Libk.Bitmap.{Bytes, set, clear, isset}

-- The first index from `i` on, of the `left` that remain, whose bit is clear.
unfoldable pub first_free : Bytes → ℕ → ℕ → Option ℕ
first_free bitmap zero i = none
first_free bitmap (suc left) i =
    let rest = first_free bitmap left (i + 1) in if isset bitmap i then rest else some i

-- `for(; i < limit; i++)` with `left = limit - i`; `unit` is PAGESIZE or BLOCKSIZE, and the result
-- is `base` when `++cnt == count`.
unfoldable pub search : Bytes → ℕ → ℕ → ℕ → ℕ → ℕ → ℕ → Option ℕ
search bitmap unit count zero i cnt base = none
search bitmap unit count (suc left) i cnt base =
    let skip = search bitmap unit count left (i + 1) 0 (u64 (base + (cnt + 1) * unit)) in
    let more = search bitmap unit count left (i + 1) (cnt + 1) base in
    if isset bitmap i then skip else if cnt + 1 == count then some base else more

-- `for(j = 0; j < count; j++) set(bitmap, start + j)`
unfoldable pub set_range : Bytes → ℕ → ℕ → Bytes
set_range bitmap start zero = bitmap
set_range bitmap start (suc n) = set_range (set bitmap start) (start + 1) n

-- `for(j = start; j < start + count; j++) clear(bitmap, j)`
unfoldable pub clear_range : Bytes → ℕ → ℕ → Bytes
clear_range bitmap start zero = bitmap
clear_range bitmap start (suc n) = clear_range (clear bitmap start) (start + 1) n
