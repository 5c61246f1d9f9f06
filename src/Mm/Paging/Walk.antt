-- ===== src/Mm/Paging/Walk.antt =====
-- How the processor translates an address by four levels of tables: the format of the page tables
-- of x86-64, which the kernel's tables are meant for.
use seaweed.Base.{ℕ, ◌+◌, ◌*◌, ◌/◌, ◌%◌, ◌^◌, ◌==◌, if◌then◌else◌, Bool}
use seaweed.Base.{Option, none, some}
use seaweed.Base.{}
use seaweed.Mm.Paging.{Words}

abbrev pub is_present : ℕ → Bool
is_present entry = entry % 2 == 1

-- Bit 7 makes an entry of the second or third level a page of its own.
abbrev pub is_big : ℕ → Bool
is_big entry = (entry / 2 ^ 7) % 2 == 1

-- The first word of the table that an entry leads to.
abbrev pub table_of : ℕ → ℕ
table_of entry = entry / 2 ^ 12 % 2 ^ 40 * 512

unfoldable pub walk1 : ℕ → ℕ → Option ℕ
walk1 entry va =
    if is_present entry then some (entry / 2 ^ 12 % 2 ^ 40 * 2 ^ 12 + va % 2 ^ 12) else none

unfoldable pub walk2 : Words → ℕ → ℕ → Option ℕ
walk2 m entry va =
    let below = walk1 (m (table_of entry + va / 2 ^ 12 % 512)) va in
    if is_present entry
    then if is_big entry then some (entry / 2 ^ 21 % 2 ^ 31 * 2 ^ 21 + va % 2 ^ 21) else below
    else none

unfoldable pub walk3 : Words → ℕ → ℕ → Option ℕ
walk3 m entry va =
    let below = walk2 m (m (table_of entry + va / 2 ^ 21 % 512)) va in
    if is_present entry
    then if is_big entry then some (entry / 2 ^ 30 % 2 ^ 22 * 2 ^ 30 + va % 2 ^ 30) else below
    else none

unfoldable pub walk4 : Words → ℕ → ℕ → Option ℕ
walk4 m entry va =
    let below = walk3 m (m (table_of entry + va / 2 ^ 30 % 512)) va in
    if is_present entry then below else none

-- The physical address of `va` with the root table in `cr3`, if it has one.
unfoldable pub translate : Words → ℕ → ℕ → Option ℕ
translate m cr3 va = walk4 m (m (table_of cr3 + va / 2 ^ 39 % 512)) va
