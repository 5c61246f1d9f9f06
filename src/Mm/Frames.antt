-- ===== src/Mm/Frames.antt =====
-- kernel/mm/physicalPageManager.c: one bit for each page of physical memory. The globals are the
-- record `Frames`. physicalPageAlloc holds its lock for the whole of the call; physicalPageFree and initPMM
-- take none, and are modelled as one step each.
pub mod Alloc
pub mod Free
pub mod Init
use seaweed.Base.{
  ℕ, ◌+◌, ◌-◌, ◌*◌, ◌/◌, ◌==◌, if◌then◌else◌, Option, none, some, List, [], ◌∷◌, u64, ltb,
}
use seaweed.Libk.Bitmap.{Bytes}
use seaweed.Mm.Layout.{pagesize, roundup}
use seaweed.Mm.Run.{first_free, search, set_range, clear_range}

pub record Frames : Type 0 where
  pub bitmap : Bytes
  pub total_detected_memory : ℕ

-- `mmapEntry_t`, an entry of the firmware's memory map.
pub record MmapEntry : Type 0 where
  pub base : ℕ
  pub length : ℕ
  pub type : ℕ

abbrev pub page_count : Frames → ℕ
page_count s = s.total_detected_memory / pagesize

-- `none` is the -1 of the source.
unfoldable pub first_free_page : Frames → Option ℕ
first_free_page s = first_free s.bitmap (page_count s) 0

-- The answer to a search: the run is marked and its address returned, or 0 is.
unfoldable pub claim : Frames → ℕ → Option ℕ → Frames × ℕ
claim s count none = (s, 0)
claim s count (some base) = (record s { bitmap = set_range s.bitmap (base / pagesize) count }, base)

-- From -1, as a word, the loop runs no round.
unfoldable pub search_from : Frames → ℕ → Option ℕ → Option ℕ
search_from s count none = none
search_from s count (some first) =
    search s.bitmap pagesize count (page_count s - first) first 0 (u64 (first * pagesize))

unfoldable pub physical_page_alloc : Frames → ℕ → Frames × ℕ
unfolding first_free_page claim search_from
physical_page_alloc s count = claim s count (search_from s count (first_free_page s))

-- The loop's bound is a sum of words, so it can wrap.
unfoldable pub physical_page_free : Frames → ℕ → ℕ → Frames
physical_page_free s base count =
    let first = roundup base pagesize in
    record s { bitmap = clear_range s.bitmap first (u64 (first + count) - first) }

unfoldable pub allocate_region : Frames → ℕ → ℕ → Frames
allocate_region s start length = record s {
  bitmap = set_range s.bitmap (start / pagesize) (length / pagesize);
}

-- One round of the loop over the memory map.
unfoldable pub add_entry : Frames → MmapEntry → Frames
unfolding allocate_region
add_entry s e =
    let grown = record s { total_detected_memory = u64 (s.total_detected_memory + e.length) } in
    if e.type == 1 then grown else allocate_region grown e.base e.length

unfoldable pub add_entries : Frames → List MmapEntry → Frames
add_entries s [] = s
add_entries s (e ∷ es) = add_entries (add_entry s e) es

-- `memset(bitmap, 0, count)`
unfoldable pub zero_bytes : Bytes → ℕ → Bytes
zero_bytes m count = λ a. if ltb a count then 0 else m a

-- The map that the boot loader left, as the list of its entries.
unfoldable pub init_pmm : Frames → List MmapEntry → Frames
unfolding allocate_region
init_pmm s entries =
    let zeroed = record s { bitmap = zero_bytes s.bitmap (s.total_detected_memory / pagesize) } in
    allocate_region (add_entries zeroed entries) 0 (0x100000 + 0x20000)
