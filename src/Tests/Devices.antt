-- ===== src/Tests/Devices.antt =====
-- A screen, a table of the interrupt controllers and a PCI bus with one device.
use seaweed.Base.{
  ℕ, zero, suc, ◌+◌, ◌-◌, ◌<◌, ◌≡◌, refl, arith, ◌==◌, if◌then◌else◌, false, ltb, leb,
}
use seaweed.Base.{Bool-cases, inl, inr, ◌⊎◌, ◌&&◌, none, some, List, [], ◌∷◌}
use seaweed.Base.{get_or}
use seaweed.Base.{Option, ◌*◌, ◌%◌, ◌^◌, some}
use seaweed.Mm.Layout.{high_vma}
use seaweed.Libk.Text.{strncmp, strncmp_from}
use seaweed.Acpi.Rsdp.{AcpiHdr, RootTables, entries, find_in, find_in_table, find_sdt}
use seaweed.Acpi.Rsdp.First.{FirstIn, find_sdt-FirstIn}
use seaweed.Drivers.Bmp.{draw_lines}
use seaweed.Drivers.Bmp.Picture.{draw_lines_picture}
use seaweed.Drivers.Font.{font_byte}
use seaweed.Drivers.Vesa.{Screen, is_lit, render_char, grab_colour}
use seaweed.Drivers.Vesa.Pixels.{IsScreen}
use seaweed.Drivers.Vesa.Laws.{render_char_pixels}
use seaweed.Acpi.Madt.{MadtInfo, madt_init, madt_loop}
use seaweed.Acpi.Madt.Laws.{Structure, Holds, collect, madt_init-collect, madt_loop_stuck}
use seaweed.Drivers.Pci.{
  PciState, device_at, is_present, is_multifunction, is_bridge, pci_read, config_address,
  pci_scan_bus,
}
use seaweed.Drivers.Pci.Laws.{HasAdded, devices_found, pci_scan_bus_found}

abbrev screen : Screen
screen = record { height = 768; width = 1024; pitch = 4096; bpp = 32; framebuffer = 0xfd000000 }

screen-IsScreen : IsScreen screen
screen-IsScreen = (refl, omega arith, omega arith, omega arith, omega arith, omega arith)

render_char_pixels_example :
    grab_colour screen 18 40 (render_char (λ k. 0) screen 16 40 0xffffff 0 b'A' (λ k. 0)) ≡ (
      if (leb 16 18 && ltb 18 (16 + 8)) && (leb 40 40 && ltb 40 (40 + 8))
      then if is_lit (font_byte (λ k. 0)) b'A' (40 - 40) (18 - 16) then 0xffffff else 0
      else grab_colour screen 18 40 (λ k. 0))
render_char_pixels_example =
    render_char_pixels (λ k. 0) screen 16 40 0xffffff 0 b'A' screen-IsScreen (omega arith)
      (omega arith) (omega arith) (omega arith) (λ k. 0) 18 40 (omega arith) (omega arith)

-- A core with its local APIC, and an entry of a type that the parser passes over.
abbrev two_structures : List Structure
two_structures =
    record { kind = 0; payload = 1 ∷ 2 ∷ 1 ∷ 0 ∷ 0 ∷ 0 ∷ [] }
    ∷ record { kind = 9; payload = 5 ∷ [] }
    ∷ []

abbrev table_bytes : ℕ → ℕ
table_bytes k = get_or (0 ∷ 8 ∷ 1 ∷ 2 ∷ 1 ∷ 0 ∷ 0 ∷ 0 ∷ 9 ∷ 3 ∷ 5 ∷ []) k 0

abbrev no_info : MadtInfo
no_info = record {
  madt_entry0_count = 0;
  madt_entry1_count = 0;
  madt_entry2_count = 0;
  madt_entry4_count = 0;
  madt_entry5_count = 0;
  madt_entry0 = λ k. record { acpi_processor_id = 0; apic_id = 0; flags = 0 };
  madt_entry1 = λ k. record { ioapic_id = 0; reserved = 0; ioapic_addr = 0; gsi_base = 0 };
  madt_entry2 = λ k. record { bus_src = 0; irq_src = 0; gsi = 0; flags = 0 };
  madt_entry4 = λ k. record { acpi_processor_id = 0; flags = 0; lint = 0 };
  madt_entry5 = λ k. record { reserved = 0; lapic_override = 0 };
  lapic_addr = 0;
}

core_bytes : (k : ℕ) → k < 6 → table_bytes (2 + k) ≡ get_or (1 ∷ 2 ∷ 1 ∷ 0 ∷ 0 ∷ 0 ∷ []) k 0
core_bytes zero lt = refl
core_bytes (suc zero) lt = refl
core_bytes (suc (suc zero)) lt = refl
core_bytes (suc (suc (suc zero))) lt = refl
core_bytes (suc (suc (suc (suc zero)))) lt = refl
core_bytes (suc (suc (suc (suc (suc zero))))) lt = refl
core_bytes (suc (suc (suc (suc (suc (suc k)))))) lt = absurd (omega arith)

passed_bytes : (k : ℕ) → k < 1 → table_bytes (10 + k) ≡ get_or (5 ∷ []) k 0
passed_bytes zero lt = refl
passed_bytes (suc k) lt = absurd (omega arith)

two_structures-Holds : Holds table_bytes 0 11 two_structures
two_structures-Holds = (
  (omega arith, omega arith),
  refl,
  refl,
  core_bytes,
  ((omega arith, omega arith), refl, refl, passed_bytes, refl),
)

madt_init-collect_example :
    madt_init 2 55 0xfee00000 table_bytes no_info
    ≡ some (collect two_structures (record no_info { lapic_addr = 0xfee00000 }))
madt_init-collect_example =
    madt_init-collect two_structures 2 55 0xfee00000 table_bytes no_info (omega arith) (omega arith)
      two_structures-Holds (omega arith)

madt_loop_stuck_example : madt_loop 100 (λ k. 0) 16 8 no_info ≡ none
madt_loop_stuck_example = madt_loop_stuck 100 (λ k. 0) 16 8 no_info (omega arith) (omega arith) refl

-- Device 3 of bus 0 answers, with a network card's identity, and no other.
abbrev one_card : ℕ → ℕ
one_card a = if a == 0x80001800 then 0x10d38086 else 0xffffffff

plain_value : (a : ℕ) → (one_card a ≡ 0x10d38086) ⊎ (one_card a ≡ 0xffffffff)
plain_value a = elim (Bool-cases (a == 0x80001800)) [
  | inl e ↦ inl (rw e refl)
  | inr e ↦ inr (rw e refl)
]

one_card_plain : (device function : ℕ) → is_bridge one_card 0 device function ≡ false
unfolding is_bridge pci_read
one_card_plain device function = elim (plain_value (config_address 0 device function 0xc)) [
  | inl e ↦ rw e refl
  | inr e ↦ rw e refl
]

abbrev no_devices : PciState
no_devices = record {
  pci_devices = λ k. record {
    class_code = 0;
    subclass = 0;
    prog_if = 0;
    device_id = 0;
    vendor_id = 0;
    bus = 0;
    device = 0;
    function = 0;
  };
  total_devices = 0;
  max_size = 10;
  grown = λ size k. device_at (λ a. 0) 0 0 0;
}

pci_scan_bus_found_example :
    (after : PciState) × (pci_scan_bus 4 one_card 0 no_devices ≡ some after)
    × HasAdded (devices_found one_card 0 32) no_devices after
unfolding is_present is_multifunction pci_read config_address
pci_scan_bus_found_example =
    pci_scan_bus_found 4 one_card 0 no_devices one_card_plain (omega arith) (omega arith)

draw_lines_picture_example :
    grab_colour screen 3 2 (draw_lines screen (λ k. k % 2 ^ 24) 4 0 4 (λ k. 0))
    ≡ (if ltb 3 1024 && (ltb 0 2 && leb 2 4) then 2051 else grab_colour screen 3 2 (λ k. 0))
draw_lines_picture_example =
    draw_lines_picture screen (λ k. k % 2 ^ 24) 4 3 2 (λ k. 0) screen-IsScreen (omega arith)
      (λ k. omega arith) (omega arith) (omega arith) (omega arith)

-- Tables at 0x2000 and 0x3000, of which the second has the signature sought.
abbrev table_header : ℕ → AcpiHdr
table_header a = record {
  signature = λ i. if a == high_vma + 0x3000 then 65 + i else 0;
  length = 52;
  revision = 0;
  checksum = 0;
  oemid = λ i. 0;
  oemtableid = λ i. 0;
  oem_revision = 0;
  creator_id = 0;
  creator_revision = 0;
}

abbrev root_tables : RootTables
root_tables = record {
  rsdt = none;
  xsdt = some (record { acpihdr = table_header 0; acpiptr = λ i. 0x2000 + i * 0x1000 });
}

finds_second : find_sdt table_header root_tables (λ i. 65 + i) ≡ some (high_vma + 0x3000)
unfolding find_sdt find_in_table find_in entries strncmp strncmp_from
finds_second = refl

find_sdt-FirstIn_example :
    (x : Option ℕ) × (y : Option ℕ) × FirstIn table_header (λ i. 65 + i) root_tables.xsdt x
    × FirstIn table_header (λ i. 65 + i) root_tables.rsdt y
    × (find_sdt table_header root_tables (λ i. 65 + i) ≡ elim x [ some a ↦ some a | none ↦ y ])
find_sdt-FirstIn_example = find_sdt-FirstIn table_header (λ i. 65 + i) root_tables
