-- ===== src/Sched/Hpet.antt =====
-- kernel/sched/hpet.c: the timer's block, and the pause that reads its counter again and again. What
-- the k-th reading of the counter gives is the parameter `clock`.
use seaweed.Base.{
  ℕ, zero, suc, ◌+◌, ◌-◌, ◌*◌, ◌/◌, ◌^◌, ◌<◌, ◌≤◌, ◌≡◌, refl, arith, ◌==◌, if◌then◌else◌, false,
  ltb,
}
use seaweed.Base.{Bool-cases, inl, inr, Option, none, some, ◌∙◌}
use seaweed.Base.{u64, ◌>>>◌, bit_and}
use native.Mathlib.Nat.{lt-mul-div-succ, mul-le-mul_left}
use seaweed.Mm.Layout.{high_vma}
use seaweed.Acpi.Rsdp.{AcpiHdr, RootTables, find_sdt}

-- How a call of `ksleep` goes: a division by zero, a loop that has not ended within the fuel, or an end
-- at the reading with this index.
pub data Pause : Type 0 where
  divide_error : Pause
  asleep : Pause
  awake : (reading : ℕ) → Pause

-- The loop, from the `n`-th reading on.
unfoldable pub wait : (ℕ → ℕ) → ℕ → ℕ → ℕ → Pause
wait clock ticks zero n = asleep
wait clock ticks (suc fuel) n =
    let rest = wait clock ticks fuel (n + 1) in if ltb (clock n) ticks then rest else awake n

-- The femtoseconds of a tick.
abbrev pub period : ℕ → ℕ
period capabilities = bit_and (capabilities >>> 32) 0xffffffff

unfoldable pub ksleep : ℕ → (ℕ → ℕ) → ℕ → ℕ → Pause
ksleep fuel clock capabilities ms =
    let ticks = u64 (clock 0 + u64 (ms * 1000000000000) / period capabilities) in
    let rest = wait clock ticks fuel 1 in if period capabilities == 0 then divide_error else rest

-- `hpetTable_t` and `hpet_t`: the address in the table, and where the block has its words.
abbrev pub address_offset : ℕ
address_offset = 36 + 8

abbrev pub general_config_offset : ℕ
general_config_offset = 2 * 8

-- `initHPET`: the store of 1 that starts the counter, as address and value, and the block's address.
-- `reads` is the word of 64 bits at an address; `none` is the access through the NULL of `findSDT`.
unfoldable pub init_hpet : (ℕ → AcpiHdr) → RootTables → (ℕ → ℕ) → (ℕ → ℕ) → Option ((ℕ × ℕ) × ℕ)
init_hpet headers tables signature reads = elim (find_sdt headers tables signature) [
  | none ↦ none
  | some table ↦
      let block = reads (table + address_offset) in
      some ((u64 (block + high_vma + general_config_offset), 1), u64 (block + high_vma))
]

-- Where the readings grow as long as they are below the target, the loop ends, at the first reading that
-- has reached it.
wait_ends :
    (clock : ℕ → ℕ) (ticks fuel n : ℕ)
    → ((k : ℕ) → n ≤ k → clock k < ticks → clock k < clock (k + 1))
    → ticks < clock n + fuel
    → 0 < fuel
    → (k : ℕ) × (wait clock ticks fuel n ≡ awake k)
      × (n ≤ k)
      × (k ≤ n + (ticks - clock n))
      × (ticks ≤ clock k)
      × ((j : ℕ) → n ≤ j → j < k → clock j < ticks)
unfolding wait
wait_ends clock ticks zero n grows near pos = absurd (omega arith)
wait_ends clock ticks (suc fuel) n grows near pos = elim (Bool-cases (ltb (clock n) ticks)) [
  | inl below ↦
      let more = grows n (omega arith) (ground arith) in
      let (k, is, lo, hi, end, before) =
        wait_ends clock ticks fuel (n + 1) (λ k a. grows k (omega arith)) (omega arith)
          (ground arith) in
      (
        k,
        rw below is,
        omega arith,
        ground arith,
        end,
        λ j a b. elim (Bool-cases (j == n)) [
          | inl first ↦ let same : j ≡ n = ground arith in rw same (ground arith)
          | inr next ↦ before j (ground arith) b
        ],
      )
  | inr done ↦
      (n, rw done refl, omega arith, omega arith, ground arith, λ j a b. absurd (omega arith))
]

ksleep-wait :
    (clock : ℕ → ℕ) (capabilities ms fuel : ℕ)
    → 0 < period capabilities
    → ms * 1000000000000 < 2 ^ 64
    → clock 0 + ms * 1000000000000 / period capabilities < 2 ^ 64
    → ksleep fuel clock capabilities ms
      ≡ wait clock (clock 0 + ms * 1000000000000 / period capabilities) fuel 1
unfolding ksleep
ksleep-wait clock capabilities ms fuel pos fits below =
    let whole : u64 (ms * 1000000000000) ≡ ms * 1000000000000 = omega arith in
    let ticks = ms * 1000000000000 / period capabilities in
    let target : u64 (clock 0 + ticks) ≡ clock 0 + ticks = omega arith in
    let some_period : (period capabilities == 0) ≡ false = ground arith in
    rw (whole, target, some_period) refl

-- ksleep, of milliseconds whose femtoseconds fit 64 bits, with a tick of more than 0 femtoseconds,
-- more fuel than the pause has ticks, and a counter that grows from each reading to the next as
-- long as it is below its target, which does not pass 2^64: the loop ends, after at most as many
-- readings as the ticks of the pause and one more; at the last reading the ticks that have passed
-- since the call, and one more, are longer than the milliseconds, and at no reading before it was
-- the target reached.
pub ksleep_waits :
    (clock : ℕ → ℕ) (capabilities ms fuel : ℕ)
    → let ticks = ms * 1000000000000 / period capabilities in
      0 < period capabilities
      → ms * 1000000000000 < 2 ^ 64
      → clock 0 + ticks < 2 ^ 64
      → ((k : ℕ) → clock k < clock 0 + ticks → clock k < clock (k + 1))
      → clock 0 ≤ clock 1
      → ticks < fuel
      → (k : ℕ) × (ksleep fuel clock capabilities ms ≡ awake k)
        × (0 < k)
        × (k ≤ ticks + 1)
        × (ms * 1000000000000 < period capabilities * (clock k - clock 0 + 1))
        × ((j : ℕ) → 0 < j → j < k → clock j < clock 0 + ticks)
ksleep_waits clock capabilities ms fuel pos fits below grows first enough =
    let p = period capabilities in
    let ticks = ms * 1000000000000 / p in
    let (k, is, lo, hi, end, before) =
      wait_ends clock (clock 0 + ticks) fuel 1 (λ k _ b. grows k b) (omega arith) (omega arith) in
    let passed : ticks + 1 ≤ clock k - clock 0 + 1 = omega arith in
    (
      k,
      ksleep-wait clock capabilities ms fuel pos fits below ∙ is,
      omega arith,
      omega arith,
      omega (arith, lt-mul-div-succ (ms * 1000000000000) pos, mul-le-mul_left p passed),
      λ j a b. before j (omega arith) b,
    )
