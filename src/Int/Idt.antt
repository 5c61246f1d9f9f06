-- ===== src/Int/Idt.antt =====
-- kernel/int/idt.c: the gates of the interrupt table and the common handler. The addresses of the
-- assembly stubs isr0 to isr254 (kernel/int/isr.asm) are the parameter `isr`.
pub mod Laws
use seaweed.Base.{
  ℕ, zero, suc, ◌+◌, ◌-◌, ◌*◌, ◌/◌, ◌%◌, ◌^◌, ◌<◌, ◌≤◌, ◌≡◌, ◌≢◌, refl, arith, ◌==◌, if◌then◌else◌,
  Bool, true, false, ltb, leb, ==_iff, ltb→lt, leb→le, lt→ltb,
}
use seaweed.Base.{
  Bool-cases, Option-cases, inl, inr, ◌⊎◌, ◌↔◌, not, ◌&&◌, ◌||◌, Option, none, some, sym, ap, ◌∙◌,
  List, [], ◌∷◌, ◌++◌, map,
}
use seaweed.Base.{
  u8, u16, u32, u64, ◌<<<◌, ◌>>>◌, bit_and, bit_or, bit_xor, not32, length, get_elem?, get_or, take,
  drop, replicate, update,
}
use seaweed.Libk.Text.{Text}
use seaweed.Libk.Print.{codes}

-- `idtEntry_t`
pub record IdtEntry : Type 0 where
  pub offset_low : ℕ
  pub selector : ℕ
  pub zero8 : ℕ
  pub attributes : ℕ
  pub offset_mid : ℕ
  pub offset_high : ℕ
  pub zero32 : ℕ

-- `idtr_t`
pub record Idtr : Type 0 where
  pub limit : ℕ
  pub offset : ℕ

-- The functions that `eventHandlers` names.
pub data Handler : Type 0 where
  scheduler_handler syscall_handler : Handler

unfoldable pub set_idt_entry : (ℕ → IdtEntry) → ℕ → ℕ → ℕ → ℕ → ℕ → IdtEntry
set_idt_entry idt code_selector index attributes offset = update idt (u8 index) (record {
  offset_low = u16 (offset >>> 0);
  selector = u8 code_selector;
  zero8 = 0;
  attributes = u8 attributes;
  offset_mid = u16 (offset >>> 16);
  offset_high = u32 (offset >>> 32);
  zero32 = 0;
})

-- Vector 105 is the gate that user code may call.
abbrev pub attributes_of : ℕ → ℕ
attributes_of k = if k == 105 then 0xef else 0x8f

-- The calls of `setIDTentry` for the vectors 0 to `n - 1`, in order.
unfoldable pub install : (ℕ → ℕ) → ℕ → (ℕ → IdtEntry) → ℕ → IdtEntry
install isr zero idt = idt
install isr (suc n) idt = set_idt_entry (install isr n idt) 8 n (attributes_of n) (isr n)

-- `eventHandlers[]`, as it is initialised: only vector 32 has a handler.
abbrev pub event_handlers : ℕ → Option Handler
event_handlers k = if k == 32 then some scheduler_handler else none

-- The handlers, the table and the register after `idtInit`; `idt_at` is the address of the table.
unfoldable pub idt_init :
    (ℕ → ℕ) → ℕ → (ℕ → IdtEntry) → (ℕ → Option Handler) × (ℕ → IdtEntry) × Idtr
idt_init isr idt_at idt = (
  update event_handlers 0x69 (some syscall_handler),
  install isr 255 idt,
  record { limit = 256 * 16 - 1; offset = u64 idt_at },
)

-- What `isrHandlerMain` does, in order: it acknowledges the interrupt at the local APIC, calls the
-- vector's handler, reports an exception (by name, core and error code; the lines with the registers,
-- which follow, are left out) and, after that, loops for ever.
pub data Event : Type 0 where
  end_of_interrupt : Event
  call : Handler → Event
  report : Text → ℕ → ℕ → Event
  hang : Event

abbrev pub exception_messages : List Text
exception_messages =
    codes "Divide by zero"
    ∷ codes "Debug"
    ∷ codes "NMI"
    ∷ codes "Breakpoint"
    ∷ codes "Overflow"
    ∷ codes "Bound Range Exceeded"
    ∷ codes "Invaild Opcode"
    ∷ codes "Device Not Available"
    ∷ codes "Double fault"
    ∷ codes "Co-processor Segment Overrun"
    ∷ codes "Invaild TSS"
    ∷ codes "Segment not present"
    ∷ codes "Stack-Segment Fault"
    ∷ codes "GPF"
    ∷ codes "Page Fault"
    ∷ codes "Reserved"
    ∷ codes "x87 Floating Point Exception"
    ∷ codes "allignement check"
    ∷ codes "Machine check"
    ∷ codes "SIMD floating-point exception"
    ∷ codes "Virtualization Excpetion"
    ∷ codes "Deadlock"
    ∷ codes "Reserved"
    ∷ codes "Reserved"
    ∷ codes "Reserved"
    ∷ codes "Reserved"
    ∷ codes "Reserved"
    ∷ codes "Reserved"
    ∷ codes "Reserved"
    ∷ codes "Reserved"
    ∷ codes "Reserved"
    ∷ codes "Security Exception"
    ∷ codes "Reserved"
    ∷ codes "Triple Fault"
    ∷ codes "FPU error"
    ∷ []

-- `isrHandlerMain` on the vector, the core and the error code of the pushed registers.
unfoldable pub isr_handler_main : (ℕ → Option Handler) → ℕ → ℕ → ℕ → List Event
isr_handler_main handlers isr_number core error_code =
    let handled : List Event = elim (handlers isr_number) [ none ↦ [] | some h ↦ call h ∷ [] ] in
    let fatal : List Event =
      if ltb isr_number 32
      then report (get_or exception_messages isr_number []) core error_code ∷ hang ∷ []
      else [] in
    end_of_interrupt ∷ (handled ++ fatal)
