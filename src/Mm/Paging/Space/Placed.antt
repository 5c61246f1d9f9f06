-- ===== src/Mm/Paging/Space/Placed.antt =====
-- The address spaces that stand in memory, and what createNewAddressSpace does to them.
use seaweed.Base.{ℕ, ◌+◌, ◌-◌, ◌*◌, ◌/◌, ◌%◌, ◌^◌, ◌<◌, ◌≤◌, ◌≡◌, ◌≢◌, arith, true, false}
use seaweed.Base.{inl, inr, ◌⊎◌, some, sym, ap, ◌∙◌}
use seaweed.Libk.Bitmap.{isset}
use seaweed.Mm.Layout.{pagesize, high_vma}
use seaweed.Mm.Run.Laws.{FreeRun}
use seaweed.Mm.Frames.{Frames, page_count}
use seaweed.Mm.Paging.{Words, Vmm}
use seaweed.Mm.Paging.Walk.{table_of, translate}
use seaweed.Mm.Paging.Kernel.{kernel_map, KernelTables, walk4_low, walk4_high}
use seaweed.Mm.Paging.Space.{create_new_address_space}
use seaweed.Mm.Paging.Space.Taken.{Later}
use seaweed.Mm.Paging.Space.Built.{word_of, Links, translate-Links}

-- The slot holds a space of `size` pages from `base` on, whose tables and pages are in use.
pub record Placed (v : Vmm) (f : Frames) (slot size base : ℕ) : Type 0 where
  pub p4 : ℕ
  pub p3 : ℕ
  pub p2 : ℕ
  pub p1 : ℕ
  pub root : (v.page_directory_tables slot).pml4 ≡ p4 * pagesize
  pub links : Links v.words p4 p3 p2 p1 base size
  pub used4 : isset f.bitmap p4 ≡ true
  pub used3 : isset f.bitmap p3 ≡ true
  pub used2 : isset f.bitmap p2 ≡ true
  pub used1 : isset f.bitmap p1 ≡ true
  pub used_pages : (j : ℕ) → base ≤ j → j < base + size → isset f.bitmap j ≡ true
  pub below4 : p4 < 2 ^ 40
  pub below3 : p3 < 2 ^ 40
  pub below2 : p2 < 2 ^ 40
  pub below1 : p1 < 2 ^ 40
  pub below : base + size < 2 ^ 40
  pub few : size ≤ 512

-- An address under the root entries 256 and 511, the kernel's.
abbrev pub IsKernelAddress : ℕ → Type 0
IsKernelAddress va =
    ((high_vma ≤ va) × (va < high_vma + 2 ^ 39)) ⊎ ((2 ^ 64 - 2 ^ 39 ≤ va) × (va < 2 ^ 64))

module _ {v : Vmm} {f : Frames} {slot size base : ℕ} (p : Placed v f slot size base) where
  pub translate-Placed :
      (va : ℕ)
      → va < size * pagesize
      → translate v.words (v.page_directory_tables slot).pml4 va ≡ some (base * pagesize + va)
  translate-Placed va va_in = rw p.root (
      translate-Links v.words p.p4 p.p3 p.p2 p.p1 base size va p.links p.below4 p.below3 p.below2
        p.below1 p.below p.few va_in)

  translate_entry :
      (m0 : Words) (va : ℕ)
      → KernelTables m0 v.words
      → IsKernelAddress va
      → translate v.words (p.p4 * pagesize) va ≡ kernel_map va
  unfolding translate
  translate_entry m0 va kernel (inl (lo, hi)) =
      let at : table_of (p.p4 * pagesize) + va / 2 ^ 39 % 512 ≡ word_of p.p4 256 =
        omega (arith, p.below4) in
      rw (at, p.links.middle) (walk4_low m0 v.words kernel va ∙ ground arith)
  translate_entry m0 va kernel (inr (lo, hi)) =
      let at : table_of (p.p4 * pagesize) + va / 2 ^ 39 % 512 ≡ word_of p.p4 511 =
        omega (arith, p.below4) in
      rw (at, p.links.last) (walk4_high m0 v.words kernel va ∙ ground arith)

  pub translate-kernel :
      (m0 : Words) (va : ℕ)
      → KernelTables m0 v.words
      → IsKernelAddress va
      → translate v.words (v.page_directory_tables slot).pml4 va ≡ kernel_map va
  translate-kernel m0 va kernel va_in = rw p.root (translate_entry m0 va kernel va_in)

-- A call of createNewAddressSpace that took its pages from the run at `r`, with `n` more behind it.
pub record Creation (v : Vmm) (f : Frames) (index size r n : ℕ) : Type 0 where
  pub after : Vmm
  pub frames : Frames
  pub base : ℕ
  pub made : create_new_address_space v f size 7 ≡ some (after, frames, index)
  pub placed : Placed after frames index size base
  pub root_free : isset f.bitmap placed.p4 ≡ false
  pub free_pages : FreeRun f.bitmap base size
  pub later : Later f frames
  pub fits : r + (size + 4) + n ≤ page_count frames
  pub run : FreeRun frames.bitmap (r + (size + 4)) n
  pub same_count : after.page_directory_count ≡ v.page_directory_count
  pub other_slots : (j : ℕ) → j ≢ index → after.page_directory_tables j ≡ v.page_directory_tables j
  -- The pages in use keep their words.
  pub others :
      (q k : ℕ)
      → k < 512
      → isset f.bitmap q ≡ true
      → after.words (word_of q k) ≡ v.words (word_of q k)

module _ {v : Vmm} {f : Frames} {index size r n : ℕ} (c : Creation v f index size r n) where
  -- A space that stood before stands as it did.
  pub Creation-keeps :
      (slot size' base' : ℕ)
      → slot ≢ index
      → Placed v f slot size' base'
      → Placed c.after c.frames slot size' base'
  Creation-keeps slot size' base' ne p = record {
    p4 = p.p4;
    p3 = p.p3;
    p2 = p.p2;
    p1 = p.p1;
    root = ap (λ e. e.pml4) (c.other_slots slot ne) ∙ p.root;
    links = record {
      root = c.others p.p4 0 (omega arith) p.used4 ∙ p.links.root;
      middle = c.others p.p4 256 (omega arith) p.used4 ∙ p.links.middle;
      last = c.others p.p4 511 (omega arith) p.used4 ∙ p.links.last;
      third = c.others p.p3 0 (omega arith) p.used3 ∙ p.links.third;
      second = c.others p.p2 0 (omega arith) p.used2 ∙ p.links.second;
      first = λ k lt. c.others p.p1 k (omega (arith, p.few)) p.used1 ∙ p.links.first k lt;
    };
    used4 = c.later.keeps p.p4 p.used4;
    used3 = c.later.keeps p.p3 p.used3;
    used2 = c.later.keeps p.p2 p.used2;
    used1 = c.later.keeps p.p1 p.used1;
    used_pages = λ j lo hi. c.later.keeps j (p.used_pages j lo hi);
    below4 = p.below4;
    below3 = p.below3;
    below2 = p.below2;
    below1 = p.below1;
    below = p.below;
    few = p.few;
  }

  -- So do the kernel's tables, if their pages are in use.
  pub Creation-KernelTables :
      (m0 : Words)
      → KernelTables m0 v.words
      → ((j : ℕ) → 0x200 ≤ j → j < 0x208 → isset f.bitmap j ≡ true)
      → KernelTables m0 c.after.words
  Creation-KernelTables m0 kernel used w lo hi =
      let at : w ≡ word_of (w / 512) (w % 512) = omega arith in
      ap c.after.words at
      ∙ c.others (w / 512) (w % 512) (omega arith) (used (w / 512) (omega arith) (omega arith))
      ∙ ap v.words (sym at)
      ∙ kernel w lo hi
