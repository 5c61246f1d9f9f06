-- ===== src/Int/Gdt/Laws.antt =====
-- The addresses of the descriptors, and how many task state segments fit.
use seaweed.Base.{ℕ, zero, suc, ◌+◌, ◌*◌, ◌^◌, ◌<◌, ◌≤◌, ◌≡◌, ◌≢◌, refl, arith, false, ltb}
use seaweed.Base.{ap, ◌∙◌, List, [], ◌∷◌}
use seaweed.Base.{u64, length, get_or}
use seaweed.Int.Gdt.{
  GdtTssEntry, GdtTable, segments, create_new_gdt, Tss, TssArray, init_tss, add_new_tss,
  create_generic_tss,
}

-- The address that the processor takes from the descriptor of a task state segment.
abbrev pub base : GdtTssEntry → ℕ
base e = e.base_low + e.base_mid * 2 ^ 16 + e.base_high * 2 ^ 24 + e.base_high32 * 2 ^ 32

-- For an address of 64 bits, the core's descriptor of a task state segment leads back to it, and the
-- tables of the other cores and the null descriptor stay as they were.
pub create_new_gdt_base :
    (gdt_at : ℕ) (gdt : ℕ → GdtTable) (core tss_addr other : ℕ)
    → tss_addr < 2 ^ 64
    → other ≢ core
    → let after = create_new_gdt gdt_at gdt core tss_addr in
      (base (after core).tss ≡ tss_addr)
      × ((after core).gdt_entries 0 ≡ (gdt core).gdt_entries 0)
      × (after other ≡ gdt other)
unfolding create_new_gdt segments
create_new_gdt_base gdt_at gdt core tss_addr other fits ne =
    (ground arith, ground arith, ground arith)

-- The segments that `createGenericTSS` makes for a list of stacks, in order.
abbrev pub create_all : List ℕ → TssArray → TssArray
create_all [] a = a
create_all (rsp0 ∷ rest) a = create_all rest (create_generic_tss rsp0 a)

pub create_generic_tss_step :
    (rsp : ℕ) (a : TssArray)
    → a.current < 8
    → a.max ≡ 8
    → a.capacity ≡ 8
    → let after = create_generic_tss rsp a in
      (after.current ≡ suc a.current)
      × (after.max ≡ 8)
      × (after.capacity ≡ 8)
      × ((after.entries a.current).rsp0 ≡ rsp)
      × ((k : ℕ) → k ≢ a.current → after.entries k ≡ a.entries k)
unfolding create_generic_tss add_new_tss
create_generic_tss_step rsp a room eight holds =
    let now : u64 (suc a.current) ≡ suc a.current = omega arith in
    let fits : ltb a.max (suc a.current) ≡ false = ground arith in
    rw now (rw fits (refl, eight, holds, ground arith, λ k ne. ground arith))

-- Up to eight stacks: each gets the next entry of the array, in order, and what was there stays.
pub create_all_entries :
    (stacks : List ℕ) (a : TssArray) (k : ℕ)
    → a.current + length stacks ≤ 8
    → a.max ≡ 8
    → a.capacity ≡ 8
    → ((create_all stacks a).current ≡ a.current + length stacks)
      × (k < a.current → (create_all stacks a).entries k ≡ a.entries k)
      × (k < length stacks
          → ((create_all stacks a).entries (a.current + k)).rsp0 ≡ get_or stacks k 0)
create_all_entries [] a k room eight holds = (omega arith, λ lt. refl, λ lt. absurd (omega arith))
create_all_entries (rsp ∷ rest) a zero room eight holds =
    let (moved, eight1, holds1, stored, kept) =
      create_generic_tss_step rsp a (omega arith) eight holds in
    let b = create_generic_tss rsp a in
    let from = λ (j : ℕ). create_all_entries rest b j (omega arith) eight1 holds1 in
    let at : a.current + 0 ≡ a.current = omega arith in
    (
      omega (arith, (from 0).0),
      λ lt. (from 0).1 (omega arith) ∙ kept 0 (omega arith),
      λ lt. rw at (ap (λ e. e.rsp0) ((from a.current).1 (omega arith)) ∙ stored),
    )
create_all_entries (rsp ∷ rest) a (suc k) room eight holds =
    let (moved, eight1, holds1, stored, kept) =
      create_generic_tss_step rsp a (omega arith) eight holds in
    let b = create_generic_tss rsp a in
    let from = λ (j : ℕ). create_all_entries rest b j (omega arith) eight1 holds1 in
    let at : a.current + suc k ≡ b.current + k = omega arith in
    (
      omega (arith, (from 0).0),
      λ lt. (from (suc k)).1 (omega arith) ∙ kept (suc k) (omega arith),
      λ lt. rw at ((from k).2 (omega arith)),
    )

-- The entries behind those of the stacks stay.
pub create_all_beyond :
    (stacks : List ℕ) (a : TssArray) (k : ℕ)
    → a.current + length stacks ≤ 8
    → a.max ≡ 8
    → a.capacity ≡ 8
    → a.current + length stacks ≤ k
    → (create_all stacks a).entries k ≡ a.entries k
create_all_beyond [] a k room eight holds lo = refl
create_all_beyond (rsp ∷ rest) a k room eight holds lo =
    let (moved, eight1, holds1, _, kept) =
      create_generic_tss_step rsp a (omega arith) eight holds in
    create_all_beyond rest (create_generic_tss rsp a) k (omega arith) eight1 holds1 (omega arith)
    ∙ kept k (omega arith)

create_all_capacity :
    (stacks : List ℕ) (a : TssArray)
    → a.current + length stacks ≤ 8
    → a.max ≡ 8
    → a.capacity ≡ 8
    → (create_all stacks a).capacity ≡ 8
create_all_capacity [] a room eight holds = holds
create_all_capacity (rsp ∷ rest) a room eight holds =
    let (moved, eight1, holds1, _, _) = create_generic_tss_step rsp a (omega arith) eight holds in
    create_all_capacity rest (create_generic_tss rsp a) (omega arith) eight1 holds1

-- Up to eight stacks given to `createGenericTSS` one after the other, from `initTSS` on: the k-th
-- segment has the k-th of them, and the array's block holds them all.
create_all-init_tss :
    (stacks : List ℕ) (found : ℕ → Tss) (k : ℕ)
    → length stacks ≤ 8
    → k < length stacks
    → let after = create_all stacks (init_tss found) in
      (after.current ≡ length stacks)
      × (after.current ≤ after.capacity)
      × ((after.entries k).rsp0 ≡ get_or stacks k 0)
create_all-init_tss stacks found k fits lt =
    let room : 0 + length stacks ≤ 8 = omega arith in
    let (count, _, stored) = create_all_entries stacks (init_tss found) k room refl refl in
    let held = create_all_capacity stacks (init_tss found) room refl refl in
    let at : k ≡ 0 + k = omega arith in
    (
      omega (arith, count),
      omega (arith, count, held),
      ap (λ j. ((create_all stacks (init_tss found)).entries j).rsp0) at ∙ stored lt,
    )
