-- ===== src/Tests/Memories.antt =====
-- lib/libk/memUtils.c on overlapping and disjoint ranges.
use seaweed.Base.{◌≡◌, refl}
use seaweed.Libk.Memory.{memcpy64, copy}

-- A destination inside the source is overwritten before it is read.
overlapping : memcpy64 (λ k. k) 1 0 3 3 ≡ 0
unfolding memcpy64 copy
overlapping = refl
