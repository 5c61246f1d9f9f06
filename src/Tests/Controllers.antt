-- ===== src/Tests/Controllers.antt =====
-- kernel/int/apic.c with one I/O APIC of 24 interrupts.
use seaweed.Base.{ℕ, ◌+◌, ◌-◌, ◌*◌, ◌/◌, ◌^◌, ◌<◌, ◌≡◌, arith}
use seaweed.Base.{◌++◌, inr}
use seaweed.Base.{u32}
use seaweed.Acpi.Madt.{MadtInfo}
use seaweed.Int.Apic.Device.{Device, run_stores, ioapic_read, Chip, ioapic_chip}
use seaweed.Int.Apic.Table.{get_max_gsis, find_vaild_ioapic, write_redirection_table}
use seaweed.Int.Apic.Search.{IsUnserved, window, write_redirection_table_unserved}

abbrev one_ioapic : MadtInfo
one_ioapic = record {
  madt_entry0_count = 0;
  madt_entry1_count = 1;
  madt_entry2_count = 0;
  madt_entry4_count = 0;
  madt_entry5_count = 0;
  madt_entry0 = λ k. record { acpi_processor_id = 0; apic_id = 0; flags = 0 };
  madt_entry1 = λ k. record { ioapic_id = 0; reserved = 0; ioapic_addr = 0xfec00000; gsi_base = 0 };
  madt_entry2 = λ k. record { bus_src = 0; irq_src = 0; gsi = 0; flags = 0 };
  madt_entry4 = λ k. record { acpi_processor_id = 0; flags = 0; lint = 0 };
  madt_entry5 = λ k. record { reserved = 0; lapic_override = 0 };
  lapic_addr = 0xfee00000;
}

abbrev controller : Device Chip
controller = ioapic_chip 0xfec00000 (λ a. 0x00170011)

abbrev reset : Chip
reset = record { selected = 0; registers = λ k. 0x10000 }

-- Interrupt 40 lies above those of the I/O APIC.
alone : (j : ℕ) → j < 1 → IsUnserved controller one_ioapic 40 j
unfolding get_max_gsis ioapic_read ioapic_chip
alone j lt s = inr (omega arith)

write_redirection_table_unserved_example :
    (s' : Chip) × (find_vaild_ioapic controller one_ioapic 40 reset ≡ (1, s'))
    × (write_redirection_table controller one_ioapic 40 72 reset ≡ (
      1,
      run_stores controller
          (window 0xfec00000 (u32 ((40 + 2 ^ 32 - 0) * 2 + 16)) (u32 72)
            ++ window 0xfec00000 (u32 (u32 ((40 + 2 ^ 32 - 0) * 2 + 16) + 1)) (u32 (72 / 2 ^ 32)))
          s',
    ))
write_redirection_table_unserved_example =
    write_redirection_table_unserved controller one_ioapic 40 72 reset (omega arith) alone
