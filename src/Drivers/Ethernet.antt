-- ===== src/Drivers/Ethernet.antt =====
-- kernel/net/e1000.c: the search for a network card, and its address, read from its memory word by
-- word. The card is what stores and readings do to it: a reading may change it, as time passes.
pub mod Address
use seaweed.Base.{
  ℕ, zero, suc, ◌+◌, ◌-◌, ◌*◌, ◌/◌, ◌%◌, ◌^◌, ◌<◌, ◌≤◌, ◌≡◌, ◌≢◌, refl, arith, ◌==◌, if◌then◌else◌,
  Bool, true, false, ltb, leb, ==_iff, ltb→lt, leb→le, lt→ltb,
}
use seaweed.Base.{
  Bool-cases, Option-cases, inl, inr, ◌⊎◌, ◌↔◌, not, ◌&&◌, ◌||◌, Option, none, some, ◌>>=◌, sym, ap,
  ◌∙◌, List, [], ◌∷◌, ◌++◌, map,
}
use seaweed.Base.{
  u8, u16, u32, u64, ◌<<<◌, ◌>>>◌, bit_and, bit_or, bit_xor, not32, length, get_elem?, get_or, take,
  drop, replicate, update,
}
use seaweed.Mm.Layout.{high_vma}
use seaweed.Drivers.Pci.{Pci, PciState}
use seaweed.Drivers.Pci.Bar.{ConfigSpace, get_bar}

pub record Card {ℓ} (S : Type ℓ) : Type ℓ where
  pub write : ℕ → ℕ → S → S
  pub read : ℕ → S → ℕ × S

-- `NICinfo_t`
pub record NicInfo : Type 0 where
  pub mac : List ℕ
  pub reg_base : ℕ

-- How the loop over the devices ends: with a card, with the message that there is none, or, on an empty
-- list, without either.
pub data Adapter : Type 0 where
  adapter : Pci → Adapter
  no_adapter : Adapter
  undecided : Adapter

unfoldable pub find_adapter : PciState → ℕ → ℕ → Adapter
find_adapter info zero i = undecided
find_adapter info (suc left) i =
    let rest = find_adapter info left (i + 1) in
    let d = info.pci_devices i in
    if d.class_code == 2 && d.subclass == 0
    then adapter d
    else if i == u64 (info.total_devices + 2 ^ 64 - 1)
    then no_adapter
    else rest

module _ {ℓ} {S : Type ℓ} (card : Card S) where
  -- The loop of `eepromRead`: its test is `(!tmp) & (1 << 4)`. `none` when the fuel ends first.
  unfoldable pub eeprom_wait : ℕ → ℕ → S → Option (ℕ × S)
  eeprom_wait zero reg_base s = none
  eeprom_wait (suc fuel) reg_base s =
      let (tmp, s') = card.read (reg_base + 0x14) s in
      let rest = eeprom_wait fuel reg_base s' in
      if bit_and (if tmp == 0 then 1 else 0) (1 <<< 4) == 0 then some (tmp, s') else rest

  unfoldable pub eeprom_read : ℕ → ℕ → ℕ → S → Option (ℕ × S)
  eeprom_read fuel reg_base addr s = do
    (tmp, s') ←
        eeprom_wait fuel reg_base (card.write (reg_base + 0x14) (bit_or 1 (u32 (u8 addr <<< 8))) s)
    some (u16 (bit_and (tmp >>> 16) 0xffff), s')

  -- The loop over the three words of the address.
  unfoldable pub read_mac : ℕ → ℕ → S → Option (List ℕ × S)
  read_mac fuel reg_base s = do
    (w0, s1) ← eeprom_read fuel reg_base 0 s
    (w1, s2) ← eeprom_read fuel reg_base 1 s1
    (w2, s3) ← eeprom_read fuel reg_base 2 s2
    some (u8 w0 ∷ u8 (w0 >>> 8) ∷ u8 w1 ∷ u8 (w1 >>> 8) ∷ u8 w2 ∷ u8 (w2 >>> 8) ∷ [], s3)

  module _ {κ} {C : Type κ} (space : ConfigSpace C) where
    -- The card that was found, from `getBAR` on.
    unfoldable pub start_adapter : ℕ → Pci → C → S → Option (NicInfo × C × S)
    start_adapter fuel d c s =
        let (bar, c') = get_bar space d 0 c in
        let base = u64 (bar.base + high_vma) in
        do
          (bytes, s') ← read_mac fuel base s
          some (record { mac = bytes; reg_base = base }, c', s')

    -- `initEthernet`: the inner `none` is the return without a card, and `found` what the block of
    -- `NICinfo` and the variable `device` hold before.
    unfoldable pub init_ethernet : ℕ → PciState → Pci → C → S → Option (Option NicInfo × C × S)
    init_ethernet fuel info garbage c s = elim (find_adapter info info.total_devices 0) [
      | adapter d ↦ do (nic, c', s') ← start_adapter fuel d c s; some (some nic, c', s')
      | no_adapter ↦ some (none, c, s)
      | undecided ↦ do (nic, c', s') ← start_adapter fuel garbage c s; some (some nic, c', s')
    ]
