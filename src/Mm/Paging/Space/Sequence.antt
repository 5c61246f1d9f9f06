-- ===== src/Mm/Paging/Space/Sequence.antt =====
-- The calls of createNewAddressSpace, one after the other, and what they need.
use seaweed.Base.{ℕ, ◌+◌, ◌*◌, ◌^◌, ◌<◌, ◌≤◌, ◌≡◌, ◌≢◌, arith, ◌==◌, true}
use seaweed.Base.{Bool-cases, inl, inr, Option, some, ◌>>=◌, sym, ap, ◌∙◌, List, [], ◌∷◌}
use seaweed.Libk.Bitmap.{isset}
use seaweed.Mm.Layout.{pagesize}
use seaweed.Mm.Run.Laws.{FreeRun}
use seaweed.Mm.Frames.{Frames, page_count}
use seaweed.Mm.Paging.{Words, Vmm}
use seaweed.Mm.Paging.Kernel.{KernelTables}
use seaweed.Mm.Paging.Space.{find_first_free_slot, create_new_address_space}
use seaweed.Mm.Paging.Space.Slots.{first_zero-at}
use seaweed.Mm.Paging.Space.Taken.{differ}
use seaweed.Mm.Paging.Space.Placed.{Creation, Creation-KernelTables}

-- The calls of createNewAddressSpace, one for each size.
unfoldable pub create_spaces : Vmm → Frames → List ℕ → Option (Vmm × Frames)
create_spaces v f [] = some (v, f)
create_spaces v f (size ∷ sizes) = do
  (v', f', slot) ← create_new_address_space v f size 7
  create_spaces v' f' sizes

-- The pages that the calls take: four for the tables of each space, and its own.
abbrev pub pages_taken : List ℕ → ℕ
pages_taken [] = 0
pages_taken (size ∷ sizes) = size + 4 + pages_taken sizes

abbrev pub AllSmall : List ℕ → Type 0
AllSmall [] = Unit
AllSmall (size ∷ sizes) = (0 < size) × (size ≤ 512) × AllSmall sizes

-- The slots before `index` are taken, and those from there to the end are free.
pub record SlotsFrom (v : Vmm) (index : ℕ) : Type 0 where
  pub taken : (j : ℕ) → j < index → (v.page_directory_tables j).pml4 ≢ 0
  pub free : (j : ℕ) → index ≤ j → j < v.page_directory_count → (v.page_directory_tables j).pml4 ≡ 0

-- What the calls need: the slots from `index` on, and `n` pages from `r` on, are free, and page 0 and
-- those of the kernel's tables are in use.
pub record Ready (m0 : Words) (v : Vmm) (f : Frames) (index r n : ℕ) : Type 0 where
  pub slots : SlotsFrom v index
  pub memory : f.total_detected_memory < 2 ^ 52
  pub fits : r + n ≤ page_count f
  pub run : FreeRun f.bitmap r n
  pub kernel : KernelTables m0 v.words
  pub first_used : isset f.bitmap 0 ≡ true
  pub kernel_used : (j : ℕ) → 0x200 ≤ j → j < 0x208 → isset f.bitmap j ≡ true

pub slot_found :
    (v : Vmm) (index : ℕ)
    → SlotsFrom v index
    → index < v.page_directory_count
    → find_first_free_slot v ≡ some index
unfolding find_first_free_slot
slot_found v index s room =
    first_zero-at _ v.page_directory_count 0 index (omega arith) (omega arith)
      (λ j _ below. s.taken j below) (s.free index (omega arith) room)

module _ (m0 : Words) (v : Vmm) (f : Frames) (index r n size : ℕ)
    (ready : Ready m0 v f index r (size + 4 + n)) (c : Creation v f index size r n) where
  root_in_use : (c.after.page_directory_tables index).pml4 ≢ 0
  root_in_use e =
      let ne = differ f 0 c.placed.p4 ready.first_used c.root_free in
      let is : c.placed.p4 * pagesize ≡ 0 = sym c.placed.root ∙ e in ne (omega arith)

  Creation-SlotsFrom : SlotsFrom c.after (index + 1)
  Creation-SlotsFrom = record {
    taken = λ j lt. elim (Bool-cases (j == index)) [
      | inl last ↦ let same : j ≡ index = ground arith in rw same root_in_use
      | inr old ↦ rw (c.other_slots j (ground arith)) (ready.slots.taken j (ground arith))
    ];
    free = λ j lo hi.
        ap (λ e. e.pml4) (c.other_slots j (omega arith))
        ∙ ready.slots.free j (omega arith) (omega (arith, c.same_count));
  }

  pub Creation-Ready : Ready m0 c.after c.frames (index + 1) (r + (size + 4)) n
  Creation-Ready = record {
    slots = Creation-SlotsFrom;
    memory = omega (arith, ready.memory, c.later.same_size);
    fits = c.fits;
    run = c.run;
    kernel = Creation-KernelTables c m0 ready.kernel ready.kernel_used;
    first_used = c.later.keeps 0 ready.first_used;
    kernel_used = λ j lo hi. c.later.keeps j (ready.kernel_used j lo hi);
  }
