-- ===== src/Libk/Bitmap/Laws.antt =====
-- What `set` and `clear` do to every bit of a bitmap.
use seaweed.Base.{ℕ, ◌/◌, ◌%◌, ◌<◌, ◌≡◌, refl, arith, ◌==◌, if◌then◌else◌, Bool, true, false}
use seaweed.Base.{not, bit_and, bit_or, u8, ◌<<<◌, ◌>>>◌, not32, holds_below, test_of_holds}
use seaweed.Libk.Bitmap.{Bytes, load8, set, clear, isset}

bit_of : ℕ → ℕ → Bool
bit_of b i = not (bit_and (b >>> i) 0x1 == 0)

same : Bool → Bool → Bool
same true b = b
same false b = not b

same_sound : (a b : Bool) → same a b ≡ true → a ≡ b
unfolding same
same_sound a b h = ground arith

-- Every byte, every bit written and every bit read.
abbrev agrees : (ℕ → ℕ → ℕ) → Bool → ℕ → ℕ → ℕ → Bool
agrees write now b i j = same (bit_of (u8 (u8 (write b i))) j) (if i == j then now else bit_of b j)

abbrev table : (ℕ → ℕ → ℕ) → Bool → Bool
table write now =
    holds_below (λ b. holds_below (λ i. holds_below (λ j. agrees write now b i j) 8) 8) 256

-- What the table says of one byte and two bits.
entry :
    (write : ℕ → ℕ → ℕ) (now : Bool) (b i j : ℕ)
    → table write now ≡ true
    → b < 256
    → i < 8
    → j < 8
    → bit_of (u8 (u8 (write b i))) j ≡ (if i == j then now else bit_of b j)
entry write now b i j all hb hi hj =
    same_sound _ _ (test_of_holds _ 8 j (test_of_holds _ 8 i (test_of_holds _ 256 b all hb) hi) hj)

abbrev set_byte : ℕ → ℕ → ℕ
set_byte b i = bit_or b (1 <<< i)

abbrev clear_byte : ℕ → ℕ → ℕ
clear_byte b i = bit_and b (not32 (1 <<< i))

set_table : table set_byte true ≡ true
unfolding holds_below bit_of same
set_table = refl

clear_table : table clear_byte false ≡ true
unfolding holds_below bit_of same
clear_table = refl

-- `set` sets its own bit and leaves every other bit of the bitmap as it was.
pub isset-set : (m : Bytes) (i j : ℕ) → isset (set m i) j ≡ (if i == j then true else isset m j)
unfolding set isset bit_of
isset-set m i j = ground (
  arith,
  entry set_byte true (load8 m (i / 8)) (i % 8) (j % 8) set_table (omega arith) (omega arith)
      (omega arith),
)

-- `clear` clears its own bit and leaves every other bit of the bitmap as it was.
pub isset-clear :
    (m : Bytes) (i j : ℕ) → isset (clear m i) j ≡ (if i == j then false else isset m j)
unfolding clear isset bit_of
isset-clear m i j = ground (
  arith,
  entry clear_byte false (load8 m (i / 8)) (i % 8) (j % 8) clear_table (omega arith) (omega arith)
      (omega arith),
)
