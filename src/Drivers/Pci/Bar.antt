-- ===== src/Drivers/Pci/Bar.antt =====
-- kernel/drivers/pci.c: pciWrite, and getBAR, which asks a device for the size of its window. The
-- configuration space is what a store and a reading of its data register do.
use seaweed.Base.{ℕ, ◌+◌, ◌-◌, ◌*◌, ◌/◌, ◌^◌, ◌<◌, ◌≤◌, ◌≡◌, refl, arith, ◌==◌, if◌then◌else◌, true}
use seaweed.Base.{u32, not32}
use native.Mathlib.Nat.{div-eq_of_lt-le, mul-le-mul_right}
use seaweed.Drivers.Pci.{Pci, config_address, pci_read}

pub record ConfigSpace {ℓ} (S : Type ℓ) : Type ℓ where
  pub read : ℕ → S → ℕ
  pub write : ℕ → ℕ → S → S

-- `pciBar_t`
pub record PciBar : Type 0 where
  pub base : ℕ
  pub size : ℕ

module _ {ℓ} {S : Type ℓ} (space : ConfigSpace S) where
  -- `pciWrite`
  unfoldable pub pci_write : ℕ → ℕ → ℕ → ℕ → ℕ → S → S
  pci_write word bus device func reg s =
      space.write (config_address bus device func reg) (u32 word) s

  -- `getBAR`
  unfoldable pub get_bar : Pci → ℕ → S → PciBar × S
  get_bar d bar_num s =
      let reg = 0x10 + bar_num * 4 in
      let base = pci_read (λ a. space.read a s) d.bus d.device d.function reg in
      let s1 = pci_write 0xffffffff d.bus d.device d.function reg s in
      let size = pci_read (λ a. space.read a s1) d.bus d.device d.function reg in
      let s2 = pci_write base d.bus d.device d.function reg s1 in
      (record { base = base; size = u32 (not32 size + 1) }, s2)

-- A configuration space with one base address register, at the address `at_bar`, of a window of `size`
-- bytes and with `flags` in its low bits, as the standard has it: only the bits from the size on can be
-- written.
unfoldable pub bar_space : ℕ → ℕ → ℕ → ConfigSpace ℕ
bar_space at_bar size flags = record {
  read = λ a word. if a == at_bar then word else 0xffffffff;
  write = λ a value word. if a == at_bar then value / size * size + flags else word;
}

module _ (d : Pci) (bar_num size flags k b : ℕ) (whole : (b + 1) * size ≡ 2 ^ 32) (inside : k ≤ b)
    (large : 16 ≤ size) (narrow : size < 2 ^ 32) (few : flags < 16) where
  abbrev place : ℕ
  place = config_address d.bus d.device d.function (0x10 + bar_num * 4)

  ones : 0xffffffff / size ≡ b
  ones = div-eq_of_lt-le size (omega (arith, whole)) (omega (arith, whole))

  spread : b * size ≡ 2 ^ 32 - size
  spread = omega (arith, whole)

  address_in : k * size ≤ b * size
  address_in = mul-le-mul_right size inside

  at_base : (k * size + flags) / size ≡ k
  at_base = div-eq_of_lt-le size (omega arith) (omega arith)

  address_low : k * size ≤ 2 ^ 32 - size
  address_low = omega (arith, spread, address_in)

  bar_word : u32 (k * size + flags) ≡ k * size + flags
  bar_word = omega (arith, address_low, whole)

  -- On a base address register of the standard, for a window of 16 bytes to 2 GiB whose size divides
  -- 2^32, aligned to its size and with `flags` in the low four bits, getBAR leaves the register as it
  -- was, but both of its results contain the flags: the base is the address and the flags, and the size
  -- is too small by them.
  pub get_bar_flags :
      let (bar, word) = get_bar (bar_space place size flags) d bar_num (k * size + flags) in
      (bar.base ≡ k * size + flags) × (bar.size ≡ size - flags) × (word ≡ k * size + flags)
  unfolding get_bar pci_write pci_read bar_space
  get_bar_flags =
      let same : (place == place) ≡ true = ground arith in
      rw (same, bar_word, bar_word, ones, at_base) (refl, omega (arith, spread), refl)
