-- ===== src/Mm/Paging/Kernel.antt =====
-- The address space of the kernel that `initVMM` builds.
use seaweed.Base.{
  ℕ, ◌+◌, ◌-◌, ◌*◌, ◌/◌, ◌%◌, ◌^◌, ◌<◌, ◌≤◌, ◌≡◌, refl, arith, ◌==◌, if◌then◌else◌, true, false,
  ltb, leb,
}
use seaweed.Base.{Bool-cases, inl, inr, ◌⊎◌, ◌&&◌, ◌||◌, Option, none, some, ap, ◌∙◌}
use seaweed.Base.{}
use seaweed.Mm.Layout.{high_vma, kernel_high_vma}
use seaweed.Mm.Paging.{Words, init_tables, Vmm, init_vmm}
use seaweed.Mm.Paging.Walk.{is_present, is_big, table_of, walk2, walk3, walk4, translate}
use seaweed.Mm.Paging.Tables.{
  start_of, big_at, init_tables_big, init_tables_top, init_tables_low, init_tables_high,
}

-- The low 4 GiB at their own addresses and at HIGH_VMA, and the low 1 GiB at KERNEL_HIGH_VMA.
abbrev pub kernel_map : ℕ → Option ℕ
kernel_map va =
    if ltb va (2 ^ 32)
    then some va
    else if leb high_vma va && ltb va (high_vma + 2 ^ 32)
    then some (va - high_vma)
    else if leb kernel_high_vma va && ltb va (kernel_high_vma + 2 ^ 30)
    then some (va - kernel_high_vma)
    else none

-- The tables lead on with the flags 7, and the big pages have the flags 0x87.
walk2_big :
    (m : Words) (k t va : ℕ)
    → k < 512
    → t < 5
    → walk2 m (k * 2 ^ 21 + start_of t + 0x87) va ≡ some (k * 2 ^ 21 + start_of t + va % 2 ^ 21)
unfolding walk2
walk2_big m k t va k_in t_in = ground arith

walk3-none : (m : Words) (va : ℕ) → walk3 m 0 va ≡ none
unfolding walk3
walk3-none m va = refl

walk4-none : (m : Words) (va : ℕ) → walk4 m 0 va ≡ none
unfolding walk4
walk4-none m va = refl

-- A memory that still holds the kernel's tables.
abbrev pub KernelTables : Words → Words → Type 0
KernelTables m n = (w : ℕ) → 0x40000 ≤ w → w < 0x41000 → n w ≡ init_tables m w

module _ (m n : Words) (kernel : KernelTables m n) where
  -- A table of big pages, the `t`-th of the five.
  walk3_table :
      (t va : ℕ) → t < 5 → walk3 n (0x202007 + t * 0x1000) va ≡ some (start_of t + va % 2 ^ 30)
  unfolding walk3
  walk3_table t va t_in =
      let k = va / 2 ^ 21 % 512 in
      let at : table_of (0x202007 + t * 0x1000) + k ≡ big_at t k = omega arith in
      let present : is_present (0x202007 + t * 0x1000) ≡ true = ground arith in
      let small : is_big (0x202007 + t * 0x1000) ≡ false = ground arith in
      let sum : k * 2 ^ 21 + start_of t + va % 2 ^ 21 ≡ start_of t + va % 2 ^ 30 = omega arith in
      let entry =
        kernel (big_at t k) (omega arith) (omega arith)
        ∙ init_tables_big m t k (omega arith) t_in in
      rw (present, small, at, entry) (walk2_big n k t va (omega arith) t_in ∙ ap some sum)

  pub walk4_low :
      (va : ℕ)
      → walk4 n 0x201007 va ≡ (if ltb (va / 2 ^ 30 % 512) 4 then some (va % 2 ^ 39) else none)
  unfolding walk4
  walk4_low va =
      let j = va / 2 ^ 30 % 512 in
      let entry =
        kernel (0x40200 + j) (omega arith) (omega arith) ∙ init_tables_low m j (omega arith) in
      rw entry (elim (Bool-cases (ltb j 4)) [
        | inl below ↦
            let start : start_of j + va % 2 ^ 30 ≡ va % 2 ^ 39 = ground arith in
            rw below (walk3_table j va (ground arith) ∙ ap some start)
        | inr above ↦ rw above (walk3-none n va)
      ])

  pub walk4_high :
      (va : ℕ)
      → walk4 n 0x207007 va ≡ (if (va / 2 ^ 30 % 512) == 510 then some (va % 2 ^ 30) else none)
  unfolding walk4
  walk4_high va =
      let j = va / 2 ^ 30 % 512 in
      let entry =
        kernel (0x40e00 + j) (omega arith) (omega arith) ∙ init_tables_high m j (omega arith) in
      rw entry (elim (Bool-cases (j == 510)) [
        | inl at ↦ rw at (walk3_table 4 va (omega arith) ∙ ap some (omega arith))
        | inr off ↦ rw off (walk3-none n va)
      ])

-- The root's entry decides which of the tables is read.
translate_root :
    (m : Words) (va : ℕ)
    → let j = va / 2 ^ 39 % 512 in
      translate (init_tables m) 0x200000 va ≡ (
        if (j == 0) || (j == 256)
        then walk4 (init_tables m) 0x201007 va
        else if j == 511
        then walk4 (init_tables m) 0x207007 va
        else none)
unfolding translate
translate_root m va =
    let j = va / 2 ^ 39 % 512 in
    rw (init_tables_top m j (omega arith)) (elim (Bool-cases ((j == 0) || (j == 256))) [
      | inl low ↦ rw low refl
      | inr other ↦ rw other (elim (Bool-cases (j == 511)) [
        | inl high ↦ rw high refl
        | inr free ↦ rw free (walk4-none (init_tables m) va)
      ])
    ])

-- After initVMM the processor translates each canonical address as the kernel means it: the low 4 GiB
-- are mapped at their own addresses and at HIGH_VMA, the low 1 GiB at KERNEL_HIGH_VMA, and no other
-- address of the lower or the upper half has a translation; what memory held before does not matter.
pub init_vmm_translates :
    (v : Vmm) (va : ℕ)
    → (va < 2 ^ 47) ⊎ ((high_vma ≤ va) × (va < 2 ^ 64))
    → let after = init_vmm v in translate after.words after.cr3 va ≡ kernel_map va
unfolding init_vmm
init_vmm_translates v va (inl low) =
    translate_root v.words va
    ∙ rw (walk4_low v.words (init_tables v.words) (λ w lo hi. refl) va)
        (rw (walk4_high v.words (init_tables v.words) (λ w lo hi. refl) va) (ground arith))
init_vmm_translates v va (inr high) =
    translate_root v.words va
    ∙ rw (walk4_low v.words (init_tables v.words) (λ w lo hi. refl) va)
        (rw (walk4_high v.words (init_tables v.words) (λ w lo hi. refl) va) (ground arith))
