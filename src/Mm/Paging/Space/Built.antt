-- ===== src/Mm/Paging/Space/Built.antt =====
-- How the processor translates an address in a new address space of 4 KiB pages.
use seaweed.Base.{
  ℕ, zero, suc, ◌+◌, ◌-◌, ◌*◌, ◌/◌, ◌%◌, ◌^◌, ◌<◌, ◌≤◌, ◌≡◌, ◌≢◌, refl, arith, ◌==◌, if◌then◌else◌,
  true, false, ltb, leb,
}
use seaweed.Base.{◌&&◌, some, ◌∙◌}
use seaweed.Base.{u64, bit_or}
use seaweed.Base.Bits.{bit_or-add}
use seaweed.Mm.Layout.{pagesize, with_kpage_flags, kpml3_addr, kpml3_addr_hh}
use seaweed.Mm.Paging.{Words, put}
use seaweed.Mm.Paging.Walk.{table_of, walk1, walk2, walk3, walk4, translate}
use seaweed.Mm.Paging.Space.{fill_pages, link_space, small_space}

-- The word `k` of the page `q`.
abbrev pub word_of : ℕ → ℕ → ℕ
word_of q k = q * 512 + k

-- The flags of a user's page: present, writable, and for the user.
with_seven : (q : ℕ) → bit_or (q * 2 ^ 12) 7 ≡ q * 2 ^ 12 + 7
with_seven q = bit_or-add 12 q 7 (omega arith)

with_kpage_flags_value : (q : ℕ) → with_kpage_flags (q * 2 ^ 12) ≡ q * 2 ^ 12 + 7
with_kpage_flags_value q =
    let user = bit_or-add 12 q 4 (omega arith) in
    let low = bit_or-add 2 (q * 2 ^ 10 + 1) 3 (omega arith) in
    let at : (q * 2 ^ 10 + 1) * 2 ^ 2 ≡ q * 2 ^ 12 + 4 = omega arith in
    rw user (rw (← at) (rw low (omega arith)))

put_reads :
    (m : Words) (t i e q k : ℕ)
    → i < 512
    → k < 512
    → put m (t * pagesize) i e (word_of q k)
      ≡ (if (q == t) && (k == i) then u64 e else m (word_of q k))
put_reads m t i e q k i_in k_in =
    let at : t * pagesize / 8 + i ≡ word_of t i = omega arith in rw at (ground arith)

-- The loop leaves the other pages as they were, and fills its own with the pages in order.
fill_pages_other :
    (m : Words) (t left i b q k : ℕ)
    → i + left ≤ 512
    → b + left < 2 ^ 40
    → k < 512
    → q ≢ t
    → fill_pages m (t * pagesize) left i (b * 2 ^ 12) 0x1000 7 (word_of q k) ≡ m (word_of q k)
unfolding fill_pages
fill_pages_other m t zero i b q k le small k_in ne = refl
fill_pages_other m t (suc left) i b q k le small k_in ne =
    let moved : u64 (b * 2 ^ 12 + 0x1000) ≡ suc b * 2 ^ 12 = omega arith in
    let here = put_reads m t i (bit_or (b * 2 ^ 12) 7) q k (omega arith) k_in in
    let off : ((q == t) && (k == i)) ≡ false = ground arith in
    rw moved (
      fill_pages_other (put m (t * pagesize) i (bit_or (b * 2 ^ 12) 7)) t left (i + 1) (suc b) q k
        (omega arith) (omega arith) k_in ne
      ∙ here
      ∙ rw off refl)

-- A round's entry and those behind it.
entries_from :
    (b i left k here e old : ℕ)
    → here ≡ (if k == i then e else old)
    → e ≡ b * 2 ^ 12 + 7
    → (if leb (i + 1) k && ltb k (i + 1 + left) then (suc b + (k - (i + 1))) * 2 ^ 12 + 7 else here)
      ≡ (if leb i k && ltb k (i + suc left) then (b + (k - i)) * 2 ^ 12 + 7 else old)
entries_from b i left k here e old first value = ground arith

fill_pages_reads :
    (m : Words) (t left i b k : ℕ)
    → i + left ≤ 512
    → b + left < 2 ^ 40
    → k < 512
    → fill_pages m (t * pagesize) left i (b * 2 ^ 12) 0x1000 7 (word_of t k)
      ≡ (if leb i k && ltb k (i + left) then (b + (k - i)) * 2 ^ 12 + 7 else m (word_of t k))
unfolding fill_pages
fill_pages_reads m t zero i b k le small k_in = ground arith
fill_pages_reads m t (suc left) i b k le small k_in =
    let moved : u64 (b * 2 ^ 12 + 0x1000) ≡ suc b * 2 ^ 12 = omega arith in
    let e = bit_or (b * 2 ^ 12) 7 in
    let value : u64 e ≡ b * 2 ^ 12 + 7 = rw (with_seven b) (omega arith) in
    let here = put_reads m t i e t k (omega arith) k_in in
    let rest =
      fill_pages_reads (put m (t * pagesize) i e) t left (i + 1) (suc b) k (omega arith)
        (omega arith) k_in in
    rw moved
      (rest ∙ entries_from b i left k _ (u64 e) (m (word_of t k)) (here ∙ ground arith) value)

-- What the words of a space are: the four entries on the way down, the pages, and the kernel's two
-- entries of the root.
pub record Links (after : Words) (p4 p3 p2 p1 base size : ℕ) : Type 0 where
  pub root : after (word_of p4 0) ≡ p3 * 2 ^ 12 + 7
  pub middle : after (word_of p4 256) ≡ 0x201007
  pub last : after (word_of p4 511) ≡ 0x207007
  pub third : after (word_of p3 0) ≡ p2 * 2 ^ 12 + 7
  pub second : after (word_of p2 0) ≡ p1 * 2 ^ 12 + 7
  pub first : (k : ℕ) → k < size → after (word_of p1 k) ≡ (base + k) * 2 ^ 12 + 7

-- A new space: a page that is none of its four tables keeps its words.
pub record Linked (m after : Words) (p4 p3 p2 p1 base size : ℕ) : Type 0 where
  pub links : Links after p4 p3 p2 p1 base size
  pub others :
      (q k : ℕ)
      → k < 512
      → q ≢ p4
      → q ≢ p3
      → q ≢ p2
      → q ≢ p1
      → after (word_of q k) ≡ m (word_of q k)

module _ (m : Words) (p4 p3 p2 p1 base size : ℕ) (ne43 : p4 ≢ p3) (ne42 : p4 ≢ p2) (ne41 : p4 ≢ p1)
    (ne32 : p3 ≢ p2) (ne31 : p3 ≢ p1) (ne21 : p2 ≢ p1) (in4 : p4 < 2 ^ 40) (in3 : p3 < 2 ^ 40)
    (in2 : p2 < 2 ^ 40) (in1 : p1 < 2 ^ 40) (in_base : base + size < 2 ^ 40)
    (few : size ≤ 512) where
  -- Before the loop: the entry of the second table, on top of the links.
  entered : Words
  entered =
      put (link_space m (p4 * pagesize) (p3 * pagesize) (p2 * pagesize)) (p2 * pagesize) 0
        (bit_or (p1 * pagesize) 7)

  -- Every word of `entered`, by its page.
  entered_reads :
      (q k : ℕ)
      → k < 512
      → entered (word_of q k) ≡ (
          if (q == p2) && (k == 0)
          then p1 * 2 ^ 12 + 7
          else if (q == p3) && (k == 0)
          then p2 * 2 ^ 12 + 7
          else if (q == p4) && (k == 0)
          then p3 * 2 ^ 12 + 7
          else if (q == p4) && (k == 511)
          then 0x207007
          else if (q == p4) && (k == 256)
          then 0x201007
          else m (word_of q k))
  unfolding entered link_space
  entered_reads q k k_in =
      let v3 : u64 (with_kpage_flags (p3 * pagesize)) ≡ p3 * 2 ^ 12 + 7 =
        rw (with_kpage_flags_value p3) (omega arith) in
      let v2 : u64 (with_kpage_flags (p2 * pagesize)) ≡ p2 * 2 ^ 12 + 7 =
        rw (with_kpage_flags_value p2) (omega arith) in
      let v1 : u64 (bit_or (p1 * pagesize) 7) ≡ p1 * 2 ^ 12 + 7 =
        rw (with_seven p1) (omega arith) in
      let m1 = put m (p4 * pagesize) 256 (with_kpage_flags kpml3_addr) in
      let m2 = put m1 (p4 * pagesize) 511 (with_kpage_flags kpml3_addr_hh) in
      let m3 = put m2 (p4 * pagesize) 0 (with_kpage_flags (p3 * pagesize)) in
      let m4 = put m3 (p3 * pagesize) 0 (with_kpage_flags (p2 * pagesize)) in
      put_reads m4 p2 0 (bit_or (p1 * pagesize) 7) q k (omega arith) k_in
      ∙ rw v1 (
          rw (put_reads m3 p3 0 (with_kpage_flags (p2 * pagesize)) q k (omega arith) k_in) (
            rw v2 (
              rw (put_reads m2 p4 0 (with_kpage_flags (p3 * pagesize)) q k (omega arith) k_in) (
                rw v3 (
                  rw (put_reads m1 p4 511 (with_kpage_flags kpml3_addr_hh) q k (omega arith) k_in) (
                    rw (put_reads m p4 256 (with_kpage_flags kpml3_addr) q k (omega arith) k_in)
                      refl))))))

  unfoldable pub space : Words
  space =
      small_space m (p4 * pagesize) (p3 * pagesize) (p2 * pagesize) (p1 * pagesize)
        (base * pagesize) size 7

  space_reads : (q k : ℕ) → k < 512 → q ≢ p1 → space (word_of q k) ≡ entered (word_of q k)
  unfolding space small_space entered
  space_reads q k k_in ne =
      fill_pages_other entered p1 size 0 base q k (omega arith) in_base k_in ne

  space_first : (k : ℕ) → k < size → space (word_of p1 k) ≡ (base + k) * 2 ^ 12 + 7
  unfolding space small_space entered
  space_first k lt =
      let inside : (leb 0 k && ltb k (0 + size)) ≡ true = ground arith in
      fill_pages_reads entered p1 size 0 base k (omega arith) in_base (omega arith)
      ∙ rw inside (omega arith)

  pub space-Linked : Linked m space p4 p3 p2 p1 base size
  space-Linked = record {
    links = record {
      root = space_reads p4 0 (omega arith) ne41 ∙ entered_reads p4 0 (omega arith) ∙ ground arith;
      middle =
          space_reads p4 256 (omega arith) ne41 ∙ entered_reads p4 256 (omega arith) ∙ ground arith;
      last =
          space_reads p4 511 (omega arith) ne41 ∙ entered_reads p4 511 (omega arith) ∙ ground arith;
      third = space_reads p3 0 (omega arith) ne31 ∙ entered_reads p3 0 (omega arith) ∙ ground arith;
      second =
          space_reads p2 0 (omega arith) ne21 ∙ entered_reads p2 0 (omega arith) ∙ ground arith;
      first = space_first;
    };
    others =
        λ q k k_in n4 n3 n2 n1. space_reads q k k_in n1 ∙ entered_reads q k k_in ∙ ground arith;
  }

-- The way down for an address of the pages.
pub translate-Links :
    (n : Words) (p4 p3 p2 p1 base size va : ℕ)
    → Links n p4 p3 p2 p1 base size
    → p4 < 2 ^ 40
    → p3 < 2 ^ 40
    → p2 < 2 ^ 40
    → p1 < 2 ^ 40
    → base + size < 2 ^ 40
    → size ≤ 512
    → va < size * 2 ^ 12
    → translate n (p4 * pagesize) va ≡ some (base * pagesize + va)
unfolding translate walk4 walk3 walk2 walk1
translate-Links n p4 p3 p2 p1 base size va l in4 in3 in2 in1 in_base few va_in =
    let k = va / 2 ^ 12 in
    let i4 : table_of (p4 * pagesize) + va / 2 ^ 39 % 512 ≡ word_of p4 0 = omega arith in
    let i3 : table_of (p3 * 2 ^ 12 + 7) + va / 2 ^ 30 % 512 ≡ word_of p3 0 = omega arith in
    let i2 : table_of (p2 * 2 ^ 12 + 7) + va / 2 ^ 21 % 512 ≡ word_of p2 0 = omega arith in
    let i1 : table_of (p1 * 2 ^ 12 + 7) + va / 2 ^ 12 % 512 ≡ word_of p1 k = omega arith in
    rw (i4, l.root, i3, l.third, i2, l.second, i1, l.first k (omega arith)) (ground arith)
