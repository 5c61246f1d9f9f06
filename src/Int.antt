-- ===== src/Int.antt =====
-- kernel/int: the interrupt and segment descriptors.
pub mod Idt
pub mod Gdt
pub mod Apic
