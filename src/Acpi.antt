-- ===== src/Acpi.antt =====
-- kernel/acpi: the tables of the firmware.
pub mod Madt
pub mod Rsdp
