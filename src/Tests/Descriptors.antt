-- ===== src/Tests/Descriptors.antt =====
-- kernel/int: the tables of descriptors, with stubs sixteen bytes apart.
use seaweed.Base.{ℕ, ◌+◌, ◌*◌, ◌^◌, ◌<◌, ◌≡◌, arith, ◌==◌, if◌then◌else◌, ltb}
use seaweed.Base.{none, some, [], ◌∷◌}
use seaweed.Base.{take}
use seaweed.Int.Idt.{
  IdtEntry, scheduler_handler, syscall_handler, idt_init, event_handlers, isr_handler_main,
  end_of_interrupt,
}
use seaweed.Int.Idt.Laws.{
  IsGate, idt_init_gates, does_hang, calls, handlers_of, isr_handler_main_events,
}
use seaweed.Int.Gdt.{GdtTable, Tss}

abbrev stub : ℕ → ℕ
stub k = if ltb k 256 then 0xffffffff80100000 + k * 16 else 0

stub_fits : (k : ℕ) → stub k < 2 ^ 64
stub_fits k = ground arith

abbrev empty_idt : ℕ → IdtEntry
empty_idt k = record {
  offset_low = 0;
  selector = 0;
  zero8 = 0;
  attributes = 0;
  offset_mid = 0;
  offset_high = 0;
  zero32 = 0;
}

idt_init_gates_example :
    let (handlers, table, _) = idt_init stub 0x500000 empty_idt in
    IsGate 105 0xffffffff80100690 (table 105)
    × (table 255 ≡ empty_idt 255)
    × (handlers 32 ≡ (
        if 32 == 105
        then some syscall_handler
        else if 32 == 32
        then some scheduler_handler
        else none))
idt_init_gates_example = idt_init_gates stub 0x500000 empty_idt 105 32 stub_fits (omega arith)

isr_handler_main_events_example :
    let events = isr_handler_main event_handlers 14 0 2 in
    (does_hang events ≡ ltb 14 32)
    × (calls events ≡ handlers_of (event_handlers 14))
    × (take 1 events ≡ end_of_interrupt ∷ [])
isr_handler_main_events_example = isr_handler_main_events event_handlers 14 0 2

abbrev pub cleared_gdt : ℕ → GdtTable
cleared_gdt core = record {
  gdt_entries = λ k. record {
    limit = 0;
    base_low = 0;
    base_mid = 0;
    access = 0;
    granularity = 0;
    base_high = 0;
  };
  tss = record {
    length = 0;
    base_low = 0;
    base_mid = 0;
    flags1 = 0;
    flags2 = 0;
    base_high = 0;
    base_high32 = 0;
    reserved = 0;
  };
  gdt_ptr = record { size = 0; addr = 0 };
}

abbrev pub cleared_tss : ℕ → Tss
cleared_tss k = record { rsp0 = 0; rsp1 = 0; rsp2 = 0; ist = λ _. 0; iopb = 0 }
