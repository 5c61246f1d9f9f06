-- ===== src/Int/Apic.antt =====
-- kernel/int/apic.c: the stores to the registers of an I/O APIC and of the local APIC.
pub mod Search
pub mod Device
pub mod Table
pub mod Routed
use seaweed.Base.{
  ℕ, zero, suc, ◌+◌, ◌-◌, ◌*◌, ◌/◌, ◌%◌, ◌^◌, ◌<◌, ◌≤◌, ◌≡◌, ◌≢◌, refl, arith, ◌==◌, if◌then◌else◌,
  Bool, true, false, ltb, leb, ==_iff, ltb→lt, leb→le, lt→ltb,
}
use seaweed.Base.{
  Bool-cases, Option-cases, inl, inr, ◌⊎◌, ◌↔◌, not, ◌&&◌, ◌||◌, Option, none, some, sym, ap, ◌∙◌,
  List, [], ◌∷◌, ◌++◌, map,
}
use seaweed.Base.{
  u8, u16, u32, u64, ◌<<<◌, ◌>>>◌, bit_and, bit_or, bit_xor, not32, length, get_elem?, get_or, take,
  drop, replicate, update,
}
use seaweed.Acpi.Madt.{MadtEntry1, MadtInfo}
use seaweed.Mm.Layout.{high_vma}

-- `ERROR` of apic.h.
abbrev pub error_code : ℕ
error_code = 69420

-- A volatile store of 32 bits.
pub record Store : Type 0 where
  pub address : ℕ
  pub value : ℕ

unfoldable pub ioapic_write : ℕ → ℕ → ℕ → List Store
ioapic_write base reg word =
    record { address = u64 (base + high_vma); value = u32 reg }
    ∷ record { address = u64 (base + 16 + high_vma); value = u32 word }
    ∷ []

-- `lapicRead`, with what an address reads as a parameter.
abbrev pub lapic_read : (ℕ → ℕ) → ℕ → ℕ → ℕ
lapic_read reads lapic_addr offset = u32 (reads (u64 (lapic_addr + high_vma + offset)))

abbrev pub lapic_write : ℕ → ℕ → ℕ → Store
lapic_write lapic_addr offset word = record {
  address = u64 (lapic_addr + high_vma + offset);
  value = u32 word;
}

-- The lapic's stores of `sendIPI`, to its two registers of the interrupt command.
unfoldable pub send_ipi : ℕ → ℕ → ℕ → List Store
send_ipi lapic_addr ap ipi =
    lapic_write lapic_addr 0x310 (u8 ap <<< 24) ∷ lapic_write lapic_addr 0x300 ipi ∷ []

-- The register of the interrupt in the table of its I/O APIC.
unfoldable pub redirection_register : MadtEntry1 → ℕ → ℕ
redirection_register e gsi = u32 ((gsi + 2 ^ 32 - e.gsi_base) * 2 + 16)
