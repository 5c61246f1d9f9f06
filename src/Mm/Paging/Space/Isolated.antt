-- ===== src/Mm/Paging/Space/Isolated.antt =====
-- Any number of address spaces, made one after the other, and that they do not share memory.
use seaweed.Base.{ℕ, zero, suc, ◌+◌, ◌*◌, ◌/◌, ◌<◌, ◌≤◌, ◌≡◌, ◌≢◌, refl, arith, true, false, ltb}
use seaweed.Base.{Bool-cases, inl, inr, some, sym, ◌∙◌, List, [], ◌∷◌}
use seaweed.Base.{length, get_or}
use seaweed.Libk.Bitmap.{isset}
use seaweed.Mm.Layout.{pagesize}
use seaweed.Mm.Frames.{Frames}
use seaweed.Mm.Paging.{Words, Vmm}
use seaweed.Mm.Paging.Walk.{translate}
use seaweed.Mm.Paging.Kernel.{kernel_map, KernelTables}
use seaweed.Mm.Paging.Space.Taken.{Later, Later-trans, Later-free, differ}
use seaweed.Mm.Paging.Space.Placed.{
  Placed, IsKernelAddress, translate-Placed, translate-kernel, Creation, Creation-keeps,
}
use seaweed.Mm.Paging.Space.Created.{create-Creation}
use seaweed.Mm.Paging.Space.Sequence.{
  create_spaces, pages_taken, AllSmall, Ready, slot_found, Creation-Ready,
}

-- The bases of the spaces, the first of which is `base`.
bases_from : ℕ → (ℕ → ℕ) → ℕ → ℕ
bases_from base rest zero = base
bases_from base rest (suc i) = rest i

-- All the spaces, made in the slots from `index` on.
record Separate (m0 : Words) (v : Vmm) (f : Frames) (index : ℕ) (sizes : List ℕ) : Type 0 where
  pub after : Vmm
  pub frames : Frames
  pub bases : ℕ → ℕ
  pub made : create_spaces v f sizes ≡ some (after, frames)
  pub kernel : KernelTables m0 after.words
  pub placed :
      (i : ℕ) → i < length sizes → Placed after frames (index + i) (get_or sizes i 0) (bases i)
  -- A space that stood before stands as it did.
  pub older :
      (slot size base : ℕ)
      → slot < index
      → Placed v f slot size base
      → Placed after frames slot size base
  pub later : Later f frames
  pub were_free :
      (i j : ℕ)
      → i < length sizes
      → bases i ≤ j
      → j < bases i + get_or sizes i 0
      → isset f.bitmap j ≡ false
  pub apart :
      (i k a b : ℕ)
      → i < k
      → k < length sizes
      → a < get_or sizes i 0
      → b < get_or sizes k 0
      → bases i + a ≢ bases k + b

module _ (m0 : Words) (v : Vmm) (f : Frames) (index r n size : ℕ) (sizes : List ℕ)
    (c : Creation v f index size r n) (rest : Separate m0 c.after c.frames (index + 1) sizes) where
  all_bases : ℕ → ℕ
  all_bases = bases_from c.base rest.bases

  made_all : create_spaces v f (size ∷ sizes) ≡ some (rest.after, rest.frames)
  unfolding create_spaces
  made_all = rw (c.made, rest.made) refl

  placed_all :
      (i : ℕ)
      → i < length (size ∷ sizes)
      → Placed rest.after rest.frames (index + i) (get_or (size ∷ sizes) i 0) (all_bases i)
  unfolding all_bases bases_from
  placed_all zero lt =
      let at : index + 0 ≡ index = omega arith in
      rw at (rest.older index size c.base (omega arith) c.placed)
  placed_all (suc i) lt =
      let at : index + suc i ≡ index + 1 + i = omega arith in rw at (rest.placed i (omega arith))

  free_all :
      (i j : ℕ)
      → i < length (size ∷ sizes)
      → all_bases i ≤ j
      → j < all_bases i + get_or (size ∷ sizes) i 0
      → isset f.bitmap j ≡ false
  unfolding all_bases bases_from
  free_all zero j lt lo hi = c.free_pages j lo hi
  free_all (suc i) j lt lo hi = Later-free j c.later (rest.were_free i j (omega arith) lo hi)

  apart_all :
      (i k a b : ℕ)
      → i < k
      → k < length (size ∷ sizes)
      → a < get_or (size ∷ sizes) i 0
      → b < get_or (size ∷ sizes) k 0
      → all_bases i + a ≢ all_bases k + b
  unfolding all_bases bases_from
  apart_all i zero a b lt k_in a_in b_in = absurd (omega arith)
  apart_all zero (suc k) a b lt k_in a_in b_in =
      differ c.frames (c.base + a) (rest.bases k + b)
        (c.placed.used_pages (c.base + a) (omega arith) (omega arith))
        (rest.were_free k (rest.bases k + b) (omega arith) (omega arith) (omega arith))
  apart_all (suc i) (suc k) a b lt k_in a_in b_in =
      rest.apart i k a b (omega arith) (omega arith) a_in b_in

  Separate-cons : Separate m0 v f index (size ∷ sizes)
  Separate-cons = record {
    after = rest.after;
    frames = rest.frames;
    bases = all_bases;
    made = made_all;
    kernel = rest.kernel;
    placed = placed_all;
    older = λ slot size' base' below p.
        rest.older slot size' base' (omega arith)
          (Creation-keeps c slot size' base' (omega arith) p);
    later = Later-trans c.later rest.later;
    were_free = free_all;
    apart = apart_all;
  }

create_spaces-Separate :
    (m0 : Words) (v : Vmm) (f : Frames) (sizes : List ℕ) (index r : ℕ)
    → AllSmall sizes
    → index + length sizes ≤ v.page_directory_count
    → Ready m0 v f index r (pages_taken sizes)
    → Separate m0 v f index sizes
create_spaces-Separate m0 v f [] index r small room ready = record {
  after = v;
  frames = f;
  bases = λ i. 0;
  made = unfold create_spaces in refl;
  kernel = ready.kernel;
  placed = λ i lt. absurd (omega arith);
  older = λ slot size base below p. p;
  later = record { keeps = λ j used. used; same_size = refl };
  were_free = λ i j lt lo hi. absurd (omega arith);
  apart = λ i k a b lt k_in a_in b_in. absurd (omega arith);
}
create_spaces-Separate m0 v f (size ∷ sizes) index r (pos, few, small) room ready =
    let n = pages_taken sizes in
    let c =
      create-Creation v f index size r n (slot_found v index ready.slots (omega arith)) pos few
        ready.memory (omega (arith, ready.fits)) ready.run in
    Separate-cons m0 v f index r n size sizes c (
      create_spaces-Separate m0 c.after c.frames sizes (index + 1) (r + (size + 4)) small
        (omega (arith, c.same_count)) (Creation-Ready m0 v f index r n size ready c))

pages_apart :
    {m0 : Words} {v : Vmm} {f : Frames} {index : ℕ} {sizes : List ℕ}
    (s : Separate m0 v f index sizes) (i k a b : ℕ)
    → i ≢ k
    → i < length sizes
    → k < length sizes
    → a < get_or sizes i 0
    → b < get_or sizes k 0
    → s.bases i + a ≢ s.bases k + b
pages_apart s i k a b ne i_in k_in a_in b_in = elim (Bool-cases (ltb i k)) [
  | inl lt ↦ s.apart i k a b (ground arith) k_in a_in b_in
  | inr ge ↦ λ e. s.apart k i b a (ground arith) i_in b_in a_in (sym e)
]

-- The tables at `root` lead each of the lowest `size` pages to a page that was free and is in use now.
abbrev pub LeadsToOwn : Frames → Vmm → Frames → ℕ → ℕ → Type 0
LeadsToOwn f v f' root size =
    (va : ℕ)
    → va < size * pagesize
    → (pa : ℕ) × (translate v.words root va ≡ some pa)
      × (isset f.bitmap (pa / pagesize) ≡ false)
      × (isset f'.bitmap (pa / pagesize) ≡ true)

-- The kernel's addresses lead where the kernel's tables lead them.
abbrev pub LeadsAsKernel : Vmm → ℕ → Type 0
LeadsAsKernel v root = (kva : ℕ) → IsKernelAddress kva → translate v.words root kva ≡ kernel_map kva

-- No page that one table leads its lowest pages to is a page that another leads its lowest pages to.
abbrev pub ShareNoPage : Vmm → ℕ → ℕ → ℕ → ℕ → Type 0
ShareNoPage v root size root' size' =
    (va vb pa pb : ℕ)
    → va < size * pagesize
    → vb < size' * pagesize
    → translate v.words root va ≡ some pa
    → translate v.words root' vb ≡ some pb
    → pa / pagesize ≢ pb / pagesize

-- The root of the space in a slot.
abbrev pub root_of : Vmm → ℕ → ℕ
root_of v slot = (v.page_directory_tables slot).pml4

-- Each of the spaces has its own pages, and any two of them share none.
pub record AreIsolated (f : Frames) (v : Vmm) (f' : Frames) (index : ℕ) (sizes : List ℕ)
    : Type 0 where
  pub own :
      (i : ℕ) → i < length sizes → LeadsToOwn f v f' (root_of v (index + i)) (get_or sizes i 0)
  pub kernel : (i : ℕ) → i < length sizes → LeadsAsKernel v (root_of v (index + i))
  pub apart :
      (i k : ℕ)
      → i ≢ k
      → i < length sizes
      → k < length sizes
      → ShareNoPage v
          (root_of v (index + i))
          (get_or sizes i 0)
          (root_of v (index + k))
          (get_or sizes k 0)

pub Placed-LeadsToOwn :
    {v : Vmm} {frames : Frames} {slot size base : ℕ} (f : Frames)
    → Placed v frames slot size base
    → ((j : ℕ) → base ≤ j → j < base + size → isset f.bitmap j ≡ false)
    → LeadsToOwn f v frames (root_of v slot) size
Placed-LeadsToOwn {v} {frames} {slot} {size} {base} f p free = λ va lt.
    let at : (base * pagesize + va) / pagesize ≡ base + va / pagesize = omega arith in
    (
      base * pagesize + va,
      translate-Placed p va lt,
      rw at (free (base + va / pagesize) (omega arith) (omega arith)),
      rw at (p.used_pages (base + va / pagesize) (omega arith) (omega arith)),
    )

pub Placed-ShareNoPage :
    {v : Vmm} {frames : Frames} {slot slot' size size' base base' : ℕ}
    → Placed v frames slot size base
    → Placed v frames slot' size' base'
    → ((a b : ℕ) → a < size → b < size' → base + a ≢ base' + b)
    → ShareNoPage v (root_of v slot) size (root_of v slot') size'
Placed-ShareNoPage {v} {frames} {slot} {slot'} {size} {size'} {base} {base'} p q apart =
    λ va vb pa pb va_in vb_in is at.
      let a_is : pa ≡ base * pagesize + va = inside (sym is ∙ translate-Placed p va va_in) in
      let b_is : pb ≡ base' * pagesize + vb = inside (sym at ∙ translate-Placed q vb vb_in) in
      let a_page : pa / pagesize ≡ base + va / pagesize = omega arith in
      let b_page : pb / pagesize ≡ base' + vb / pagesize = omega arith in
      rw (a_page, b_page) (apart (va / pagesize) (vb / pagesize) (omega arith) (omega arith))
  where
    inside : {a b : ℕ} → some a ≡ some b → a ≡ b
    inside e = cc

-- Any number of calls of createNewAddressSpace, one for each size of a list, each of 1 to 512 pages
-- of 4 KiB, where the slots from `index` on are free and enough, a run of pages long enough for all
-- of them and their tables is free from `r` on, below 2^52 bytes of memory, the kernel's tables
-- stand, and page 0 and the pages of those tables are in use: all of them succeed, the i-th in the
-- slot index + i. Afterwards each space leads every address below its size to a page that was free
-- before and is in use now, and the kernel's addresses to where the kernel's tables do; and for any
-- two different spaces no page that one leads such addresses to is one the other leads such
-- addresses to. This says nothing of the other addresses: the tables are not zeroed, so those above
-- the size lead wherever the old words of the page do, and through the kernel's addresses every
-- space sees all low memory.
pub create_spaces_isolated :
    (m0 : Words) (v : Vmm) (f : Frames) (sizes : List ℕ) (index r : ℕ)
    → AllSmall sizes
    → index + length sizes ≤ v.page_directory_count
    → Ready m0 v f index r (pages_taken sizes)
    → (v' : Vmm) × (f' : Frames) × (create_spaces v f sizes ≡ some (v', f'))
      × AreIsolated f v' f' index sizes
create_spaces_isolated m0 v f sizes index r small room ready =
    let s = create_spaces-Separate m0 v f sizes index r small room ready in
    (
      s.after,
      s.frames,
      s.made,
      record {
        own = λ i lt. Placed-LeadsToOwn f (s.placed i lt) (λ j lo hi. s.were_free i j lt lo hi);
        kernel = λ i lt kva kva_in. translate-kernel (s.placed i lt) m0 kva s.kernel kva_in;
        apart = λ i k ne i_in k_in.
            Placed-ShareNoPage (s.placed i i_in) (s.placed k k_in)
              (λ a b a_in b_in. pages_apart s i k a b ne i_in k_in a_in b_in);
      },
    )
