-- ===== src/Mm/Paging/Tables.antt =====
-- What each entry of the kernel's tables is after `initVMM`.
use seaweed.Base.{
  ℕ, zero, suc, ◌+◌, ◌-◌, ◌*◌, ◌/◌, ◌^◌, ◌<◌, ◌≤◌, ◌≡◌, refl, arith, ◌==◌, if◌then◌else◌, true,
  false, ltb, leb,
}
use seaweed.Base.{Bool-cases, inl, inr, ◌⊎◌, ◌&&◌, ◌||◌, ◌∙◌}
use seaweed.Base.{u64}
use seaweed.Base.Bits.{bit_or-add}
use seaweed.Mm.Paging.{Words, zero_words, big_page, map_round, map_rounds, link_tables, init_tables}

-- Where the pages of the table `t` of the five start: the last one is the kernel's, at 0 again.
abbrev pub start_of : ℕ → ℕ
start_of t = if t == 4 then 0 else t * 2 ^ 30

-- The word of the entry `k` of the table `t` of the five.
abbrev pub big_at : ℕ → ℕ → ℕ
big_at t k = 0x40400 + 512 * t + k

big_page_value : (q : ℕ) → big_page (q * 2 ^ 21) ≡ q * 2 ^ 21 + 0x87
unfolding big_page
big_page_value q =
    let size = bit_or-add 21 q 0x80 (omega arith) in
    let user = bit_or-add 3 (q * 2 ^ 18 + 16) 4 (omega arith) in
    let low = bit_or-add 2 (q * 2 ^ 19 + 33) 3 (omega arith) in
    let at3 : (q * 2 ^ 18 + 16) * 2 ^ 3 ≡ q * 2 ^ 21 + 0x80 = omega arith in
    let at2 : (q * 2 ^ 19 + 33) * 2 ^ 2 ≡ (q * 2 ^ 18 + 16) * 2 ^ 3 + 4 = omega arith in
    rw size (rw (← at3) (rw user (rw (← at2) (rw low (omega arith)))))

map_round_reads :
    (m : Words) (i p t k : ℕ)
    → i < 512
    → k < 512
    → t < 5
    → map_round m i p (big_at t k)
      ≡ (if k == i then u64 (big_page (p + start_of t)) else m (big_at t k))
unfolding map_round
map_round_reads m i p zero k i_in k_in t_in = ground arith
map_round_reads m i p (suc zero) k i_in k_in t_in = ground arith
map_round_reads m i p (suc (suc zero)) k i_in k_in t_in = ground arith
map_round_reads m i p (suc (suc (suc zero))) k i_in k_in t_in = ground arith
map_round_reads m i p (suc (suc (suc (suc zero)))) k i_in k_in t_in = ground arith
map_round_reads m i p (suc (suc (suc (suc (suc t))))) k i_in k_in t_in = absurd (omega arith)

map_round_other :
    (m : Words) (i p w : ℕ) → i < 512 → (w < 0x40400) ⊎ (0x40e00 ≤ w) → map_round m i p w ≡ m w
unfolding map_round
map_round_other m i p w i_in (inl below) = ground arith
map_round_other m i p w i_in (inr above) = ground arith

map_rounds_other :
    (m : Words) (left i p w : ℕ)
    → i + left ≤ 512
    → (w < 0x40400) ⊎ (0x40e00 ≤ w)
    → map_rounds m left i p w ≡ m w
unfolding map_rounds
map_rounds_other m zero i p w le out = refl
map_rounds_other m (suc left) i p w le out =
    map_rounds_other (map_round m i p) left (i + 1) (u64 (p + 0x200000)) w (omega arith) out
    ∙ map_round_other m i p w (omega arith) out

-- The rounds from `i` on fill their entries with pages one behind the other.
map_rounds_reads :
    (m : Words) (left i q t k : ℕ)
    → i + left ≤ 512
    → q + left < 2 ^ 40
    → k < 512
    → t < 5
    → map_rounds m left i (q * 2 ^ 21) (big_at t k) ≡ (
        if leb i k && ltb k (i + left)
        then u64 (big_page ((q + (k - i)) * 2 ^ 21 + start_of t))
        else m (big_at t k))
unfolding map_rounds
map_rounds_reads m zero i q t k le small k_in t_in = ground arith
map_rounds_reads m (suc left) i q t k le small k_in t_in =
    let moved : u64 (q * 2 ^ 21 + 0x200000) ≡ suc q * 2 ^ 21 = omega arith in
    let rest =
      map_rounds_reads (map_round m i (q * 2 ^ 21)) left (i + 1) (suc q) t k (omega arith)
        (omega arith) k_in t_in in
    let here = map_round_reads m i (q * 2 ^ 21) t k (omega arith) k_in t_in in
    rw moved (
      rest ∙ (elim (Bool-cases (k == i)) [
        | inl at ↦
            let page : (q + (k - i)) * 2 ^ 21 ≡ q * 2 ^ 21 = ground arith in
            let first : (leb i k && ltb k (i + suc left)) ≡ true = ground arith in
            let later : (leb (i + 1) k && ltb k (i + 1 + left)) ≡ false = ground arith in
            rw later (here ∙ rw at (rw first (rw page refl)))
        | inr off ↦
            let same : (leb (i + 1) k && ltb k (i + 1 + left)) ≡ (leb i k && ltb k (i + suc left)) =
              ground arith in
            rw same (elim (Bool-cases (leb i k && ltb k (i + suc left))) [
              | inl inside ↦
                  let page : (suc q + (k - (i + 1))) * 2 ^ 21 ≡ (q + (k - i)) * 2 ^ 21 =
                    ground arith in
                  rw inside (rw page refl)
              | inr outside ↦ rw outside (here ∙ rw off refl)
            ])
      ]))

-- The entry `k` of each of the five tables, after `initVMM`.
pub init_tables_big :
    (m : Words) (t k : ℕ)
    → k < 512
    → t < 5
    → init_tables m (big_at t k) ≡ k * 2 ^ 21 + start_of t + 0x87
unfolding init_tables
init_tables_big m t k k_in t_in =
    let reads =
      map_rounds_reads (link_tables (zero_words m 0x40000 0x1000)) 512 0 0 t k (omega arith)
        (omega arith) k_in t_in in
    let inside : (leb 0 k && ltb k (0 + 512)) ≡ true = ground arith in
    let q = k + start_of t / 2 ^ 21 in
    let page : (0 + (k - 0)) * 2 ^ 21 + start_of t ≡ q * 2 ^ 21 = ground arith in
    let word : u64 (q * 2 ^ 21 + 0x87) ≡ q * 2 ^ 21 + 0x87 = ground arith in
    reads ∙ rw inside (rw page (rw (big_page_value q) (word ∙ ground arith)))

-- Outside the five tables nothing is left but the links and zeros.
init_tables_links :
    (m : Words) (w : ℕ)
    → (w < 0x40400) ⊎ (0x40e00 ≤ w)
    → init_tables m w ≡ link_tables (zero_words m 0x40000 0x1000) w
unfolding init_tables
init_tables_links m w out =
    map_rounds_other (link_tables (zero_words m 0x40000 0x1000)) 512 0 0 w (omega arith) out

link_tables_top :
    (m : Words) (k : ℕ)
    → k < 512
    → link_tables (zero_words m 0x40000 0x1000) (0x40000 + k)
      ≡ (if (k == 0) || (k == 256) then 0x201007 else if k == 511 then 0x207007 else 0)
unfolding link_tables
link_tables_top m k k_in = ground arith

link_tables_low :
    (m : Words) (k : ℕ)
    → k < 512
    → link_tables (zero_words m 0x40000 0x1000) (0x40200 + k)
      ≡ (if ltb k 4 then 0x202007 + k * 0x1000 else 0)
unfolding link_tables
link_tables_low m k k_in = ground arith

link_tables_high :
    (m : Words) (k : ℕ)
    → k < 512
    → link_tables (zero_words m 0x40000 0x1000) (0x40e00 + k) ≡ (if k == 510 then 0x206007 else 0)
unfolding link_tables
link_tables_high m k k_in = ground arith

module _ (m : Words) (k : ℕ) (k_in : k < 512) where
  -- The root table: the low and the middle entry lead to one table, and the last to the kernel's.
  pub init_tables_top :
      init_tables m (0x40000 + k)
      ≡ (if (k == 0) || (k == 256) then 0x201007 else if k == 511 then 0x207007 else 0)
  init_tables_top = init_tables_links m (0x40000 + k) (inl (omega arith)) ∙ link_tables_top m k k_in

  pub init_tables_low : init_tables m (0x40200 + k) ≡ (if ltb k 4 then 0x202007 + k * 0x1000 else 0)
  init_tables_low = init_tables_links m (0x40200 + k) (inl (omega arith)) ∙ link_tables_low m k k_in

  pub init_tables_high : init_tables m (0x40e00 + k) ≡ (if k == 510 then 0x206007 else 0)
  init_tables_high =
      init_tables_links m (0x40e00 + k) (inr (omega arith)) ∙ link_tables_high m k k_in
