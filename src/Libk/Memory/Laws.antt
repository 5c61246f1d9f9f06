-- ===== src/Libk/Memory/Laws.antt =====
-- Which cells the memory routines write, and with what.
use seaweed.Base.{ℕ, zero, suc, ◌+◌, ◌-◌, ◌≤◌, ◌≡◌, arith, if◌then◌else◌, ltb, leb}
use seaweed.Base.{Bool-cases, inl, inr, ◌⊎◌, ◌&&◌, ap}
use seaweed.Base.{u8, update}
use seaweed.Libk.Memory.{Cells, fill, copy, memset, memcpy64}

pub fill_cells :
    (m : Cells) (src v n k : ℕ)
    → fill m src v n k ≡ (if leb src k && ltb k (src + n) then v else m k)
unfolding fill
fill_cells m src v zero k = ground arith
fill_cells m src v (suc n) k = ground (arith, fill_cells (update m src v) (src + 1) v n k)

-- A copy upwards moves the source intact wherever the destination does not start inside the source.
pub copy_cells :
    (m : Cells) (dest src n k : ℕ)
    → (dest ≤ src) ⊎ (src + n ≤ dest)
    → copy m dest src n k ≡ (if leb dest k && ltb k (dest + n) then m (src + (k - dest)) else m k)
unfolding copy
copy_cells m dest src zero k apart = ground arith
copy_cells m dest src (suc n) k apart =
    let m' : Cells = update m dest (m src) in
    let rest = copy_cells m' (dest + 1) (src + 1) n k (grind arith) in
    elim (Bool-cases (leb (dest + 1) k)) [
      | inl behind ↦
          let cell : src + 1 + (k - (dest + 1)) ≡ src + (k - dest) = ground arith in
          ground (arith, rest, ap m' cell, ap m cell)
      | inr front ↦
          let first : m (src + (dest - dest)) ≡ m src = ap m (omega arith) in
          ground (arith, rest, first)
    ]

-- `memcpy64` gives each destination cell the value that its source cell had, and no other cell
-- changes, if the destination does not start inside the source.
pub memcpy64_cells :
    (m : Cells) (dest src count k : ℕ)
    → (dest ≤ src) ⊎ (src + count ≤ dest)
    → memcpy64 m dest src count k
      ≡ (if leb dest k && ltb k (dest + count) then m (src + (k - dest)) else m k)
unfolding memcpy64
memcpy64_cells m dest src count k apart = copy_cells m dest src count k apart

-- `memset` stores the low byte of its argument in exactly `count` cells.
pub memset_cells :
    (m : Cells) (src v count k : ℕ)
    → memset m src v count k ≡ (if leb src k && ltb k (src + count) then u8 v else m k)
unfolding memset
memset_cells m src v count k = fill_cells m src (u8 v) count k
