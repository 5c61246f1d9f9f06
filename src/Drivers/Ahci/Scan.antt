-- ===== src/Drivers/Ahci/Scan.antt =====
-- kernel/drivers/ahci.c: the two loops of initAHCI.
use seaweed.Base.{ℕ, zero, suc, ◌+◌, ◌==◌, if◌then◌else◌, Bool}
use seaweed.Base.{not, ◌&&◌, ◌||◌, Option, some, ◌>>=◌, List, [], ◌∷◌, ◌++◌}
use seaweed.Base.{◌<<<◌, bit_and, bit_or}
use seaweed.Mm.Frames.{Frames}
use seaweed.Drivers.Pci.{Pci, pci_read}
use seaweed.Drivers.Ahci.{HbaPorts, Ahci}
use seaweed.Drivers.Ahci.Command.{init_sata_device}

-- A call of `pciWrite`.
pub record PciWrite : Type 0 where
  pub data_value : ℕ
  pub bus : ℕ
  pub device : ℕ
  pub function : ℕ
  pub reg : ℕ

-- Where the first loop ends: `initAHCI` returns, or goes on with the controller that it saw last and
-- the calls of `pciWrite` that it made; `none` is `device` never assigned.
pub data Found : Type 0 where
  gives_up : Found
  goes_on : Option Pci → List PciWrite → Found

-- Bit 2 of the register is the controller's right to start transfers.
unfoldable pub master_writes : (ℕ → ℕ) → Pci → List PciWrite
master_writes config d =
    let old = pci_read config d.bus d.device d.function 0x4 in
    if bit_and old (1 <<< 2) == 0
    then record {
      data_value = bit_or old (1 <<< 2);
      bus = d.bus;
      device = d.device;
      function = d.function;
      reg = 0x4;
    }
      ∷ []
    else []

abbrev pub is_sata : Pci → Bool
is_sata d = (d.class_code == 1) && (d.subclass == 6)

-- The loop over the devices; `left` of them remain from `i` on.
unfoldable pub find_controller : (ℕ → ℕ) → (ℕ → Pci) → ℕ → ℕ → Option Pci → List PciWrite → Found
find_controller config devices zero i found writes = goes_on found writes
find_controller config devices (suc left) i found writes =
    let d = devices i in
    let rest = find_controller config devices left (i + 1) found writes in
    let taken =
      find_controller config devices left (i + 1) (some d) (writes ++ master_writes config d) in
    if is_sata d
    then if d.prog_if == 0 || d.prog_if == 2
      then gives_up
      else if d.prog_if == 1
      then taken
      else rest
    else rest

abbrev pub sata_ata : ℕ
sata_ata = 0x101

-- The loop over the ports, of which the controller has those in `pi`: each one that a disk is behind
-- is set up. `none` is a wait that the fuel does not last for.
unfoldable pub init_ports :
    (ℕ → HbaPorts → HbaPorts) → (ℕ → ℕ) → ℕ → ℕ → ℕ → ℕ → Ahci × Frames → Option (Ahci × Frames)
init_ports device read fuel pi zero i (s, f) = some (s, f)
init_ports device read fuel pi (suc left) i (s, f) =
    let disk = not (bit_and pi (1 <<< i) == 0) && ((s.ports i).sig == sata_ata) in
    let skipped = init_ports device read fuel pi left (i + 1) (s, f) in
    let found = init_sata_device (device i) read fuel s f i in
    let next = found >>= init_ports device read fuel pi left (i + 1) in
    if disk then next else skipped
