-- ===== src/Int/Apic/Device.antt =====
-- kernel/int/apic.c on devices: the registers of an I/O APIC behind its two windows, and the timer of
-- the local APIC. A device is what stores, readings and the passing of time do to it; the two chips
-- are those of the manuals.
use seaweed.Base.{ℕ, ◌+◌, ◌-◌, ◌*◌, ◌/◌, ◌%◌, ◌^◌, ◌<◌, ◌≡◌, ◌≢◌, refl, arith, ◌==◌, if◌then◌else◌}
use seaweed.Base.{List, [], ◌∷◌}
use seaweed.Base.{u8, u32, u64, bit_or, update}
use seaweed.Mm.Layout.{high_vma}
use seaweed.Int.Apic.{Store, ioapic_write, lapic_write}

-- A device that stands in memory: a volatile store of 32 bits, a reading, and a pause in milliseconds.
pub record Device {ℓ} (S : Type ℓ) : Type ℓ where
  pub write : Store → S → S
  pub read : ℕ → S → ℕ
  pub pause : ℕ → S → S

module _ {ℓ} {S : Type ℓ} (dev : Device S) where
  abbrev pub run_stores : List Store → S → S
  run_stores [] s = s
  run_stores (x ∷ xs) s = run_stores xs (dev.write x s)

  -- `ioapicRead`: what it returns, and the device afterwards.
  unfoldable pub ioapic_read : ℕ → ℕ → S → ℕ × S
  ioapic_read base reg s =
      let s' = dev.write (record { address = u64 (base + 16 + high_vma); value = u32 reg }) s in
      (u32 (dev.read (u64 (base + 18 + high_vma)) s'), s')

  -- `lapicTimerInit`, with its two calls of `ksleep` as pauses.
  unfoldable pub lapic_timer_init : ℕ → ℕ → S → S
  lapic_timer_init lapic_addr ticks_per_ms s =
      let left = u64 (ticks_per_ms + 2 ^ 64 - 10) in
      let s1 = dev.pause 10 (dev.write (lapic_write lapic_addr 0x3e0 0x3) s) in
      let s2 = dev.pause left (dev.write (lapic_write lapic_addr 0x380 0xffffffff) s1) in
      let current = u32 (dev.read (u64 (lapic_addr + high_vma + 0x390)) s2) in
      let ticks = u32 (0xffffffff + 2 ^ 32 - current) in
      run_stores
        (lapic_write lapic_addr 0x320 (bit_or 32 0x20000)
          ∷ lapic_write lapic_addr 0x3e0 0x3
          ∷ lapic_write lapic_addr 0x380 ticks
          ∷ [])
        s2

-- An I/O APIC: the register that is selected, and the registers.
pub record Chip : Type 0 where
  pub selected : ℕ
  pub registers : ℕ → ℕ

-- The I/O APIC of the manual at `base`: the first window selects a register, the one 16 bytes behind
-- it is the selected register. What other addresses read is `other`.
unfoldable pub ioapic_chip : ℕ → (ℕ → ℕ) → Device Chip
ioapic_chip base other = record {
  write = λ x c.
      if x.address == u64 (base + high_vma)
      then record c { selected = u8 x.value }
      else if x.address == u64 (base + 16 + high_vma)
      then record c { registers = update c.registers c.selected x.value }
      else c;
  read = λ a c. if a == u64 (base + 16 + high_vma) then c.registers c.selected else other a;
  pause = λ ms c. c;
}

-- On the I/O APIC of the manual, below 4 GiB, ioapicWrite sets the register that it names, one of
-- 256, and no other; an ioapicRead behind it overwrites that register with the number of the
-- register it asks for, leaves the selection as it was, and returns what stands 18 bytes behind the
-- base, whatever the registers hold.
ioapic_read_overwrites :
    (base reg word asked k : ℕ) (other : ℕ → ℕ) (c : Chip)
    → base < 2 ^ 32
    → reg < 256
    → asked < 2 ^ 32
    → k ≢ reg
    → let dev = ioapic_chip base other in
      let written = run_stores dev (ioapic_write base reg word) c in
      let (value, after) = ioapic_read dev base asked written in
      (written.registers reg ≡ u32 word)
      × (written.registers k ≡ c.registers k)
      × (after.registers reg ≡ asked)
      × (after.registers k ≡ c.registers k)
      × (after.selected ≡ reg)
      × (value ≡ u32 (other (u64 (base + 18 + high_vma))))
unfolding ioapic_chip ioapic_write ioapic_read
ioapic_read_overwrites base reg word asked k other c low reg_in asked_in ne =
    (ground arith, ground arith, ground arith, ground arith, ground arith, ground arith)

-- The timer of a local APIC: its entry of the vector table, the divider, and the two counts.
pub record LapicTimer : Type 0 where
  pub lvt : ℕ
  pub divide : ℕ
  pub initial : ℕ
  pub current : ℕ

-- The timer of the manual: a store to the initial count starts the countdown, of as many counts in a
-- millisecond as the divider's configuration gives.
unfoldable pub lapic_timer_chip : ℕ → (ℕ → ℕ) → (ℕ → ℕ) → Device LapicTimer
lapic_timer_chip lapic_addr rate other = record {
  write = λ x t.
      if x.address == u64 (lapic_addr + high_vma + 0x320)
      then record t { lvt = x.value }
      else if x.address == u64 (lapic_addr + high_vma + 0x3e0)
      then record t { divide = x.value }
      else if x.address == u64 (lapic_addr + high_vma + 0x380)
      then record t { initial = x.value; current = x.value }
      else t;
  read = λ a t. if a == u64 (lapic_addr + high_vma + 0x390) then t.current else other a;
  pause = λ ms t. record t { current = t.current - rate t.divide * ms };
}

module _ (lapic_addr : ℕ) (rate other : ℕ → ℕ) (low : lapic_addr < 2 ^ 32) where
  abbrev timer : Device LapicTimer
  timer = lapic_timer_chip lapic_addr rate other

  write_lvt :
      (word : ℕ) (t : LapicTimer)
      → timer.write (lapic_write lapic_addr 0x320 word) t ≡ record t { lvt = u32 word }
  unfolding lapic_timer_chip
  write_lvt word t = ground arith

  write_divide :
      (word : ℕ) (t : LapicTimer)
      → timer.write (lapic_write lapic_addr 0x3e0 word) t ≡ record t { divide = u32 word }
  unfolding lapic_timer_chip
  write_divide word t = ground arith

  write_initial :
      (word : ℕ) (t : LapicTimer)
      → timer.write (lapic_write lapic_addr 0x380 word) t
        ≡ record t { initial = u32 word; current = u32 word }
  unfolding lapic_timer_chip
  write_initial word t = ground arith

  read_current : (t : LapicTimer) → timer.read (u64 (lapic_addr + high_vma + 0x390)) t ≡ t.current
  unfolding lapic_timer_chip
  read_current t = ground arith

  pause_counts :
      (ms : ℕ) (t : LapicTimer)
      → timer.pause ms t ≡ record t { current = t.current - rate t.divide * ms }
  unfolding lapic_timer_chip
  pause_counts ms t = refl

  counted : ℕ → ℕ
  counted ms = u32 (0xffffffff + 2 ^ 32 - u32 (0xffffffff - rate 3 * ms))

  lapic_timer_init_lem :
      (ticks_per_ms : ℕ) (t : LapicTimer)
      → lapic_timer_init timer lapic_addr ticks_per_ms t ≡ record {
        lvt = 0x20020;
        divide = 3;
        initial = u32 (counted (u64 (ticks_per_ms + 2 ^ 64 - 10)));
        current = u32 (counted (u64 (ticks_per_ms + 2 ^ 64 - 10)));
      }
  unfolding lapic_timer_init counted
  lapic_timer_init_lem ticks_per_ms t =
      rw
        (
          write_divide, pause_counts, write_initial, pause_counts, read_current, write_lvt,
          write_divide, write_initial,
        )
        refl

-- lapicTimerInit for more than 10 milliseconds, on the timer of the manual, below 4 GiB, where the counts
-- of the measured time are some and do not run through the counter of 32 bits: the timer is left
-- counting down, periodically and with the vector 32, from the counts of 10 milliseconds fewer than
-- asked for, and not from 0, which would stop it.
pub lapic_timer_init_period :
    (lapic_addr ticks_per_ms : ℕ) (rate other : ℕ → ℕ) (t : LapicTimer)
    → lapic_addr < 2 ^ 32
    → 10 < ticks_per_ms
    → ticks_per_ms < 2 ^ 64
    → 0 < rate 3 * (ticks_per_ms - 10)
    → rate 3 * (ticks_per_ms - 10) < 2 ^ 32
    → let after =
        lapic_timer_init (lapic_timer_chip lapic_addr rate other) lapic_addr ticks_per_ms t in
      (0 < after.initial)
      × (after.initial ≡ rate 3 * (ticks_per_ms - 10))
      × (after.current ≡ after.initial)
      × (after.divide ≡ 3)
      × (after.lvt % 2 ^ 8 ≡ 32)
      × (after.lvt / 2 ^ 17 % 2 ≡ 1)
lapic_timer_init_period lapic_addr ticks_per_ms rate other t low enough fits some_counts counts =
    let left : u64 (ticks_per_ms + 2 ^ 64 - 10) ≡ ticks_per_ms - 10 = omega arith in
    let count : u32 (counted lapic_addr rate other low (ticks_per_ms - 10))
        ≡ rate 3 * (ticks_per_ms - 10) =
      unfold counted in omega arith in
    rw (lapic_timer_init_lem lapic_addr rate other low ticks_per_ms t, left)
      (omega (arith, count), count, refl, refl, refl, refl)
