-- ===== src/Drivers/Pci.antt =====
-- kernel/drivers/pci.c: the registers of the PCI devices and the scan of the buses.
pub mod Laws
pub mod Bar
use seaweed.Base.{
  ℕ, zero, suc, ◌+◌, ◌-◌, ◌*◌, ◌/◌, ◌%◌, ◌^◌, ◌<◌, ◌≤◌, ◌≡◌, ◌≢◌, refl, arith, ◌==◌, if◌then◌else◌,
  Bool, true, false, ltb, leb, ==_iff, ltb→lt, leb→le, lt→ltb,
}
use seaweed.Base.{
  Bool-cases, Option-cases, inl, inr, ◌⊎◌, ◌↔◌, not, ◌&&◌, ◌||◌, Option, none, some, sym, ap, ◌∙◌,
  List, [], ◌∷◌, ◌++◌, map,
}
use seaweed.Base.{
  u8, u16, u32, u64, ◌<<<◌, ◌>>>◌, bit_and, bit_or, bit_xor, not32, length, get_elem?, get_or, take,
  drop, replicate, update,
}

-- `pci_t`
pub record Pci : Type 0 where
  pub class_code : ℕ
  pub subclass : ℕ
  pub prog_if : ℕ
  pub device_id : ℕ
  pub vendor_id : ℕ
  pub bus : ℕ
  pub device : ℕ
  pub function : ℕ

-- The list of devices, its length, and the static `maxSize` of `addPCIDevice`. What the block holds
-- that krealloc returns for a size is left open, and is `grown`: krealloc is called with a number of
-- devices where it takes a number of bytes.
pub record PciState : Type 0 where
  pub pci_devices : ℕ → Pci
  pub total_devices : ℕ
  pub max_size : ℕ
  pub grown : ℕ → ℕ → Pci

-- The address that selects a register, of the bytes that `pciRead` takes.
unfoldable pub config_address : ℕ → ℕ → ℕ → ℕ → ℕ
config_address bus device func reg =
    bit_or
      (bit_or (bit_or (bit_or (1 <<< 31) (u8 bus <<< 16)) (bit_and (u8 device) 31 <<< 11))
        (bit_and (u8 func) 7 <<< 8))
      (bit_and (u8 reg) (not32 3))

-- `pciRead`; `config` is the register that the host bridge shows at an address.
unfoldable pub pci_read : (ℕ → ℕ) → ℕ → ℕ → ℕ → ℕ → ℕ
pci_read config bus device func reg = u32 (config (config_address bus device func reg))

-- `addPCIDevice`
unfoldable pub add_pci_device : Pci → PciState → PciState
add_pci_device new_device st =
    let size = u64 (st.max_size + 10) in
    let ready =
      if ltb st.max_size st.total_devices
      then record st { pci_devices = st.grown size; max_size = size }
      else st in
    record ready {
      pci_devices = update ready.pci_devices st.total_devices new_device;
      total_devices = u64 (suc st.total_devices);
    }

-- The device that `checkDevice` reads at a place.
unfoldable pub device_at : (ℕ → ℕ) → ℕ → ℕ → ℕ → Pci
device_at config at_bus at_device at_function = record {
  class_code = u8 (pci_read config at_bus at_device at_function 8 >>> 24);
  subclass = u8 (pci_read config at_bus at_device at_function 8 >>> 16);
  prog_if = u8 (pci_read config at_bus at_device at_function 8 >>> 8);
  device_id = u16 (pci_read config at_bus at_device at_function 0 >>> 16);
  vendor_id = u16 (pci_read config at_bus at_device at_function 0);
  bus = at_bus;
  device = at_device;
  function = at_function;
}

-- `isBridge`: the header's type is 1, less its highest bit, and the class is that of a bridge.
unfoldable pub is_bridge : (ℕ → ℕ) → ℕ → ℕ → ℕ → Bool
is_bridge config bus device function =
    (bit_and (u8 (pci_read config bus device function 0xc >>> 16)) (not32 (1 <<< 7)) == 1)
    && (u8 (pci_read config bus device function 8 >>> 24) == 6)
    && (u8 (pci_read config bus device function 8 >>> 16) == 4)

unfoldable pub is_present : (ℕ → ℕ) → ℕ → ℕ → ℕ → Bool
is_present config bus device function = not (u16 (pci_read config bus device function 0) == 0xffff)

unfoldable pub is_multifunction : (ℕ → ℕ) → ℕ → ℕ → Bool
is_multifunction config bus device =
    not (bit_and (u8 (pci_read config bus device 0 0xc >>> 16)) (1 <<< 7) == 0)

-- A visit of a function; `none` when the fuel of a bus behind a bridge has ended.
abbrev pub Visit : Type 0
Visit = ℕ → ℕ → ℕ → PciState → Option PciState

abbrev pub visit_present : Visit → (ℕ → ℕ) → ℕ → ℕ → ℕ → PciState → Option PciState
visit_present visit config bus device function st =
    if is_present config bus device function then visit bus device function st else some st

-- The functions 1 to `n` of a device.
unfoldable pub scan_functions : Visit → (ℕ → ℕ) → ℕ → ℕ → ℕ → PciState → Option PciState
scan_functions visit config bus device zero st = some st
scan_functions visit config bus device (suc n) st =
    elim (scan_functions visit config bus device n st) [
      | none ↦ none
      | some after ↦ visit_present visit config bus device (suc n) after
    ]

-- One round of the loop of `pciScanBus`.
unfoldable pub scan_device : Visit → (ℕ → ℕ) → ℕ → ℕ → PciState → Option PciState
scan_device visit config bus device st =
    if is_present config bus device 0
    then elim (visit bus device 0 st) [
      | none ↦ none
      | some after ↦
          if is_multifunction config bus device
          then scan_functions visit config bus device 7 after
          else some after
    ]
    else some st

-- The devices 0 to `n - 1` of a bus.
unfoldable pub scan_devices : Visit → (ℕ → ℕ) → ℕ → ℕ → PciState → Option PciState
scan_devices visit config bus zero st = some st
scan_devices visit config bus (suc n) st = elim (scan_devices visit config bus n st) [
  | none ↦ none
  | some after ↦ scan_device visit config bus n after
]

-- `checkDevice`; the fuel is the depth of bridges behind bridges.
unfoldable pub check_device : ℕ → (ℕ → ℕ) → ℕ → ℕ → ℕ → PciState → Option PciState
check_device zero config bus device function st =
    if is_bridge config bus device function
    then none
    else some (add_pci_device (device_at config bus device function) st)
check_device (suc fuel) config bus device function st =
    let behind =
      scan_devices (check_device fuel config) config
        (u8 (pci_read config bus device function 0x18 >>> 8)) 32 st in
    if is_bridge config bus device function
    then behind
    else some (add_pci_device (device_at config bus device function) st)

unfoldable pub pci_scan_bus : ℕ → (ℕ → ℕ) → ℕ → PciState → Option PciState
pci_scan_bus fuel config bus st = scan_devices (check_device fuel config) config bus 32 st
