-- ===== src/Tests/Chips.antt =====
-- The chips of kernel/int/apic.c, kernel/sched/hpet.c, kernel/drivers/pci.c and kernel/net/e1000.c.
use seaweed.Base.{ℕ, ◌+◌, ◌-◌, ◌*◌, ◌/◌, ◌%◌, ◌^◌, ◌<◌, ◌≤◌, ◌≡◌, refl, arith, ◌==◌, if◌then◌else◌}
use seaweed.Base.{some, [], ◌∷◌}
use seaweed.Base.{u16, u64}
use seaweed.Mm.Layout.{high_vma}
use seaweed.Int.Apic.Device.{
  lapic_timer_init, Chip, ioapic_chip, LapicTimer, lapic_timer_chip, lapic_timer_init_period,
}
use seaweed.Acpi.Madt.{MadtInfo}
use seaweed.Int.Apic.Table.{route}
use seaweed.Int.Apic.Routed.{route_overwrites}
use seaweed.Tests.Cores.{machine}
use seaweed.Sched.Hpet.{ksleep, awake, period, ksleep_waits}
use seaweed.Drivers.Pci.{Pci, PciState, config_address}
use seaweed.Drivers.Pci.Bar.{ConfigSpace, get_bar, bar_space, get_bar_flags}
use seaweed.Drivers.Ethernet.{init_ethernet}
use seaweed.Drivers.Ethernet.Address.{eeprom_card, init_ethernet_address}

abbrev ioapic : Chip
ioapic = record { selected = 0; registers = λ k. 0x10000 }

abbrev controllers : MadtInfo
controllers = record machine {
  madt_entry1_count = 1;
  madt_entry1 = λ i. record { ioapic_id = 0; reserved = 0; ioapic_addr = 0xfec00000; gsi_base = 0 };
}

-- The place that ioapicRead reads shows 23 as the highest interrupt.
route_overwrites_example :
    let after = route (ioapic_chip 0xfec00000 (λ a. 0x170011)) controllers 16 0 ioapic in
    (after.registers (3 * 2 + 16) ≡ 3 + 32)
    × (after.registers (3 * 2 + 17) ≡ 1)
    × (after.registers 46 ≡ 47)
    × (after.registers 47 ≡ 0)
route_overwrites_example =
    route_overwrites 0xfec00000 (λ a. 0x170011) controllers ioapic 3 (omega arith)
      (record { count = refl; address = refl; from_zero = refl }) (omega arith) (omega arith)
      (omega arith)

abbrev stopped : LapicTimer
stopped = record { lvt = 0x10000; divide = 0; initial = 0; current = 0 }

-- 1000 counts in a millisecond.
lapic_timer_init_period_example :
    let after =
      lapic_timer_init (lapic_timer_chip 0xfee00000 (λ d. 1000) (λ a. 0)) 0xfee00000 100 stopped in
    (0 < after.initial)
    × (after.initial ≡ 90000)
    × (after.current ≡ after.initial)
    × (after.divide ≡ 3)
    × (after.lvt % 2 ^ 8 ≡ 32)
    × (after.lvt / 2 ^ 17 % 2 ≡ 1)
lapic_timer_init_period_example =
    lapic_timer_init_period 0xfee00000 100 (λ d. 1000) (λ a. 0) stopped (omega arith) (omega arith)
      (omega arith) (omega arith) (omega arith)

-- A tick of 10^7 femtoseconds, and a thousand ticks from one reading to the next.
abbrev capabilities : ℕ
capabilities = 10000000 * 2 ^ 32

abbrev clock : ℕ → ℕ
clock k = 5000 + k * 1000

ksleep_waits_example :
    (k : ℕ) × (ksleep 1000001 clock capabilities 10 ≡ awake k)
    × (0 < k)
    × (k ≤ 10 * 1000000000000 / period capabilities + 1)
    × (10 * 1000000000000 < period capabilities * (clock k - clock 0 + 1))
    × ((j : ℕ) → 0 < j → j < k → clock j < clock 0 + 10 * 1000000000000 / period capabilities)
ksleep_waits_example =
    ksleep_waits clock capabilities 10 1000001 (omega arith) (omega arith) (omega arith)
      (λ k lt. omega arith) (omega arith) (omega arith)

abbrev card_at : Pci
card_at = record {
  class_code = 2;
  subclass = 0;
  prog_if = 0;
  device_id = 0x100e;
  vendor_id = 0x8086;
  bus = 0;
  device = 3;
  function = 0;
}

-- A window of 128 KiB at 0xfeb80000, prefetchable.
get_bar_flags_example :
    let (bar, word) =
      get_bar
        (bar_space (config_address 0 3 0 (0x10 + 0 * 4)) 0x20000 8)
        card_at
        0
        (0x7f5c * 0x20000 + 8) in
    (bar.base ≡ 0x7f5c * 0x20000 + 8) × (bar.size ≡ 0x20000 - 8) × (word ≡ 0x7f5c * 0x20000 + 8)
get_bar_flags_example =
    get_bar_flags card_at 0 0x20000 8 0x7f5c 0x7fff refl (omega arith) (omega arith) (omega arith)
      (omega arith)

abbrev bus : PciState
bus = record {
  pci_devices = λ i. if i == 1 then card_at else record card_at { class_code = 6 };
  total_devices = 3;
  max_size = 10;
  grown = λ size k. card_at;
}

abbrev space : ConfigSpace ℕ
space = record { read = λ a w. w; write = λ a v w. v }

init_ethernet_address_example :
    let (bar, c) = get_bar space card_at 0 0xfeb80000 in
    init_ethernet
      (eeprom_card (u64 (bar.base + high_vma)) (λ k. u16 (0x5452 + k)) (λ k. 0x1234) 1)
      space
      5
      bus
      card_at
      0xfeb80000
      (record { asked = 0; waiting = 0 })
    ≡ some (
      some (record {
        mac = 0x34 ∷ 0x12 ∷ 0x34 ∷ 0x12 ∷ 0x34 ∷ 0x12 ∷ [];
        reg_base = u64 (bar.base + high_vma);
      }),
      c,
      record { asked = 2; waiting = 0 },
    )
init_ethernet_address_example =
    init_ethernet_address space 0xfeb80000 bus card_at 4 1 1 (λ k. u16 (0x5452 + k)) (λ k. 0x1234)
      (record { asked = 0; waiting = 0 }) (omega arith) (omega arith) refl (λ j lt. ground arith)
      (λ j. omega arith) (λ j. omega arith)
