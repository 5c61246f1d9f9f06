-- ===== src/Drivers/Ethernet/Address.antt =====
-- The address that initEthernet (kernel/net/e1000.c) reads, from a card that takes its time.
use seaweed.Base.{
  ℕ, zero, suc, ◌+◌, ◌-◌, ◌*◌, ◌/◌, ◌%◌, ◌^◌, ◌<◌, ◌≤◌, ◌≡◌, refl, arith, ◌==◌, if◌then◌else◌, Bool,
  true, false,
}
use seaweed.Base.{Bool-cases, inl, inr, ◌&&◌, some, List, [], ◌∷◌}
use seaweed.Base.{u8, u16, u32, u64, ◌<<<◌, ◌>>>◌, bit_and, bit_or}
use seaweed.Base.Bits.{bit_and_half}
use seaweed.Mm.Layout.{high_vma}
use seaweed.Drivers.Pci.{Pci, PciState}
use seaweed.Drivers.Pci.Bar.{ConfigSpace, get_bar}
use seaweed.Drivers.Ethernet.{
  Card, adapter, find_adapter, eeprom_wait, eeprom_read, read_mac, start_adapter, init_ethernet,
}

-- The register of a card's memory: the word that is asked for, and the readings until it is there.
pub record Eeprom : Type 0 where
  pub asked : ℕ
  pub waiting : ℕ

-- The card of the manual, with its registers from `reg_base` on, the words of its memory, and a delay
-- in readings: a store with the start bit asks for a word; a reading shows the bit 4 with the word
-- above it when the delay is over. Before that it does not show the bit; what stands above it then is
-- left open, and is the parameter `early`.
unfoldable pub eeprom_card : ℕ → (ℕ → ℕ) → (ℕ → ℕ) → ℕ → Card Eeprom
eeprom_card reg_base words early delay = record {
  write = λ a v s.
      if a == reg_base + 0x14 && v % 2 == 1
      then record { asked = v / 256 % 256; waiting = delay }
      else s;
  read = λ a s.
      if a == reg_base + 0x14
      then (if s.waiting == 0
          then (words s.asked * 2 ^ 16 + s.asked * 256 + 16, s)
          else (early s.asked * 2 ^ 16 + s.asked * 256, record s { waiting = s.waiting - 1 }))
      else (0xffffffff, s);
}

-- The loop of eepromRead never goes round: it takes the first reading, whatever it is.
eeprom_wait_first {ℓ} :
    {S : Type ℓ} (card : Card S) (fuel reg_base : ℕ) (s : S)
    → eeprom_wait card (suc fuel) reg_base s ≡ some (card.read (reg_base + 0x14) s)
unfolding eeprom_wait
eeprom_wait_first card fuel reg_base s =
    elim (Bool-cases ((card.read (reg_base + 0x14) s).0 == 0)) [
      | inl is ↦ rw is refl
      | inr is ↦ rw is refl
    ]

-- The bytes of three words, the low one of each first.
abbrev pub address_bytes : (ℕ → ℕ) → List ℕ
address_bytes w =
    u8 (w 0) ∷ u8 (w 0 >>> 8) ∷ u8 (w 1) ∷ u8 (w 1 >>> 8) ∷ u8 (w 2) ∷ u8 (w 2 >>> 8) ∷ []

-- The test for a network card.
abbrev pub is_ethernet : Pci → Bool
is_ethernet d = d.class_code == 2 && d.subclass == 0

find_adapter-first :
    (info : PciState) (left i k : ℕ)
    → i + left ≡ info.total_devices
    → info.total_devices < 2 ^ 64
    → i ≤ k
    → k < info.total_devices
    → is_ethernet (info.pci_devices k) ≡ true
    → ((j : ℕ) → i ≤ j → j < k → is_ethernet (info.pci_devices j) ≡ false)
    → find_adapter info left i ≡ adapter (info.pci_devices k)
unfolding find_adapter
find_adapter-first info zero i k all fits le lt is before = absurd (omega arith)
find_adapter-first info (suc left) i k all fits le lt is before = elim (Bool-cases (i == k)) [
  | inl at ↦ let same : i ≡ k = ground arith in rw (same, is) refl
  | inr off ↦
      let last : (i == u64 (info.total_devices + 2 ^ 64 - 1)) ≡ false = ground arith in
      rw (before i (omega arith) (ground arith), last)
        (find_adapter-first info left (i + 1) k (omega arith) fits (ground arith) lt is
          (λ j a b. before j (omega arith) b))
]

module _ (reg_base : ℕ) (words early : ℕ → ℕ) (delay : ℕ) (few : (k : ℕ) → words k < 2 ^ 16)
    (early_few : (k : ℕ) → early k < 2 ^ 16) where
  abbrev card : Card Eeprom
  card = eeprom_card reg_base words early delay

  -- What a word reads as, and the card afterwards.
  abbrev pub seen : ℕ → ℕ
  seen k = if delay == 0 then words k else early k

  abbrev asked_for : ℕ → Eeprom
  asked_for k = record { asked = k; waiting = delay - 1 }

  write_asks :
      (addr : ℕ) (s : Eeprom)
      → addr < 256
      → card.write (reg_base + 0x14) (1 + addr * 256) s ≡ record { asked = addr; waiting = delay }
  unfolding eeprom_card
  write_asks addr s low = ground arith

  read_first :
      (addr : ℕ)
      → addr < 256
      → let (tmp, s) = card.read (reg_base + 0x14) (record { asked = addr; waiting = delay }) in
        (u16 (bit_and (tmp >>> 16) 0xffff) ≡ seen addr) × (s ≡ asked_for addr)
  unfolding eeprom_card
  read_first addr low =
      let same : (reg_base + 0x14 == reg_base + 0x14) ≡ true = ground arith in
      elim (Bool-cases (delay == 0)) [
        | inl now ↦ rw (same, now, bit_and_half) (omega (arith, few addr), ground arith)
        | inr later ↦ rw (same, later, bit_and_half) (omega (arith, early_few addr), refl)
      ]

  eeprom_read-seen :
      (fuel addr : ℕ) (s : Eeprom)
      → addr < 256
      → bit_or 1 (u32 (u8 addr <<< 8)) ≡ 1 + addr * 256
      → eeprom_read card (suc fuel) reg_base addr s ≡ some (seen addr, asked_for addr)
  unfolding eeprom_read
  eeprom_read-seen fuel addr s low word =
      let (is, after) = read_first addr low in
      rw (word, eeprom_wait_first card, write_asks, is, after) refl

  read_mac-seen :
      (fuel : ℕ) (s : Eeprom)
      → read_mac card (suc fuel) reg_base s ≡ some (address_bytes seen, asked_for 2)
  unfolding read_mac
  read_mac-seen fuel s =
      rw
        (
          eeprom_read-seen fuel 0 s (omega arith) refl,
          eeprom_read-seen fuel 1 (asked_for 0) (omega arith) refl,
          eeprom_read-seen fuel 2 (asked_for 1) (omega arith) refl,
        )
        refl

-- initEthernet, where the k-th device is the first network card, the registers stand where getBAR says,
-- and the words have 16 bits: it ends, whatever the fuel above 0, with the card's registers found, and
-- with the address that stands in the first three words, the low byte of each first, when the card has
-- a word ready at once; when it takes any longer, with the words
-- that the card shows in their place while the bit 4 is still clear, whatever they are.
pub init_ethernet_address {ℓ} :
    {C : Type ℓ} (space : ConfigSpace C) (c : C) (info : PciState) (garbage : Pci)
    (fuel k delay : ℕ) (words early : ℕ → ℕ) (s : Eeprom)
    → info.total_devices < 2 ^ 64
    → k < info.total_devices
    → is_ethernet (info.pci_devices k) ≡ true
    → ((j : ℕ) → j < k → is_ethernet (info.pci_devices j) ≡ false)
    → ((j : ℕ) → words j < 2 ^ 16)
    → ((j : ℕ) → early j < 2 ^ 16)
    → let (bar, c') = get_bar space (info.pci_devices k) 0 c in
      let reg_base = u64 (bar.base + high_vma) in
      init_ethernet (eeprom_card reg_base words early delay) space (suc fuel) info garbage c s
      ≡ some (
        some (record {
          mac = address_bytes (λ j. if delay == 0 then words j else early j);
          reg_base = reg_base;
        }),
        c',
        record { asked = 2; waiting = delay - 1 },
      )
unfolding init_ethernet start_adapter
init_ethernet_address space c info garbage fuel k delay words early s fits lt is before few
      early_few =
    let d = info.pci_devices k in
    let found =
      find_adapter-first info info.total_devices 0 k (omega arith) fits (omega arith) lt is
        (λ j _ b. before j b) in
    let reg_base = u64 ((get_bar space d 0 c).0.base + high_vma) in
    let bytes = read_mac-seen reg_base words early delay few early_few fuel s in
    rw (found, init_ethernet, bytes, start_adapter) refl
