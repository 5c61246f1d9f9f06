-- ===== src/Int/Idt/Laws.antt =====
-- Which stub each vector of the interrupt table leads to, and what the common handler does.
use seaweed.Base.{
  ℕ, zero, suc, ◌+◌, ◌*◌, ◌^◌, ◌<◌, ◌≤◌, ◌≡◌, ◌≢◌, refl, arith, ◌==◌, if◌then◌else◌, Bool, true,
  false, ltb,
}
use seaweed.Base.{Bool-cases, Option-cases, inl, inr, Option, none, some, ◌∙◌, List, [], ◌∷◌}
use seaweed.Base.{u8, get_or, take}
use seaweed.Int.Idt.{
  IdtEntry, Handler, scheduler_handler, syscall_handler, set_idt_entry, attributes_of, install,
  idt_init, Event, end_of_interrupt, call, report, hang, isr_handler_main, exception_messages,
}

-- The address that the processor takes from a gate: its three parts, put together.
abbrev pub target : IdtEntry → ℕ
target e = e.offset_low + e.offset_mid * 2 ^ 16 + e.offset_high * 2 ^ 32

target-set_idt_entry :
    (idt : ℕ → IdtEntry) (sel k attributes offset : ℕ)
    → k < 256
    → offset < 2 ^ 64
    → target (set_idt_entry idt sel k attributes offset k) ≡ offset
unfolding set_idt_entry
target-set_idt_entry idt sel k attributes offset lt fits =
    let index : u8 k ≡ k = omega arith in rw index (ground arith)

-- A gate as `idtInit` leaves it.
abbrev pub IsGate : ℕ → ℕ → IdtEntry → Type 0
IsGate k address e =
    (target e ≡ address)
    × (e.selector ≡ 8)
    × (e.attributes ≡ attributes_of k)
    × (e.zero8 ≡ 0)
    × (e.zero32 ≡ 0)

set_idt_entry-IsGate :
    (idt : ℕ → IdtEntry) (k offset : ℕ)
    → k < 256
    → offset < 2 ^ 64
    → IsGate k offset (set_idt_entry idt 8 k (attributes_of k) offset k)
unfolding set_idt_entry
set_idt_entry-IsGate idt k offset lt fits =
    let index : u8 k ≡ k = omega arith in
    (
      target-set_idt_entry idt 8 k (attributes_of k) offset lt fits,
      rw index (ground arith),
      rw index (ground arith),
      rw index (ground arith),
      rw index (ground arith),
    )

set_idt_entry_other :
    (idt : ℕ → IdtEntry) (sel k attributes offset j : ℕ)
    → k < 256
    → j ≢ k
    → set_idt_entry idt sel k attributes offset j ≡ idt j
unfolding set_idt_entry
set_idt_entry_other idt sel k attributes offset j lt ne = ground arith

install_gates :
    (isr : ℕ → ℕ) (idt : ℕ → IdtEntry) (n k : ℕ)
    → n ≤ 256
    → ((j : ℕ) → isr j < 2 ^ 64)
    → (k < n → IsGate k (isr k) (install isr n idt k)) × (n ≤ k → install isr n idt k ≡ idt k)
unfolding install
install_gates isr idt zero k small fits = (λ lt. absurd (omega arith), λ _. refl)
install_gates isr idt (suc n) k small fits = (
  λ lt. elim (Bool-cases (k == n)) [
    | inl at ↦
        let same : k ≡ n = ground arith in
        rw same (set_idt_entry-IsGate (install isr n idt) n (isr n) (omega arith) (fits n))
    | inr off ↦
        rw
          (set_idt_entry_other (install isr n idt) 8 n (attributes_of n) (isr n) k (omega arith)
            (ground arith))
          ((install_gates isr idt n k (omega arith) fits).0 (ground arith))
  ],
  λ le.
      set_idt_entry_other (install isr n idt) 8 n (attributes_of n) (isr n) k (omega arith)
        (omega arith)
      ∙ (install_gates isr idt n k (omega arith) fits).1 (omega arith),
)

-- After `idtInit` each of the vectors 0 to 254 leads to its own stub through the kernel's code
-- segment, vector 105 by the gate that user code may call; the gate of vector 255 is as it was. The
-- handlers are the scheduler's at 32 and the system calls' at 105, and no other.
pub idt_init_gates :
    (isr : ℕ → ℕ) (idt_at : ℕ) (idt : ℕ → IdtEntry) (k j : ℕ)
    → ((i : ℕ) → isr i < 2 ^ 64)
    → k < 255
    → let (handlers, table, _) = idt_init isr idt_at idt in
      IsGate k (isr k) (table k)
      × (table 255 ≡ idt 255)
      × (handlers j ≡ (
          if j == 105
          then some syscall_handler
          else if j == 32
          then some scheduler_handler
          else none))
unfolding idt_init
idt_init_gates isr idt_at idt k j fits lt = (
  (install_gates isr idt 255 k (omega arith) fits).0 lt,
  (install_gates isr idt 255 255 (omega arith) fits).1 (omega arith),
  refl,
)

isr_handler_main_taken :
    (handlers : ℕ → Option Handler) (k core code : ℕ) (h : Handler)
    → handlers k ≡ some h
    → isr_handler_main handlers k core code
      ≡ end_of_interrupt
        ∷ call h
        ∷ (if ltb k 32 then report (get_or exception_messages k []) core code ∷ hang ∷ [] else [])
unfolding isr_handler_main
isr_handler_main_taken handlers k core code h taken = rw taken refl

isr_handler_main_free :
    (handlers : ℕ → Option Handler) (k core code : ℕ)
    → handlers k ≡ none
    → isr_handler_main handlers k core code
      ≡ end_of_interrupt
        ∷ (if ltb k 32 then report (get_or exception_messages k []) core code ∷ hang ∷ [] else [])
unfolding isr_handler_main
isr_handler_main_free handlers k core code free = rw free refl

-- Whether the handler comes to its endless loop.
abbrev pub does_hang : List Event → Bool
does_hang [] = false
does_hang (end_of_interrupt ∷ es) = does_hang es
does_hang (call h ∷ es) = does_hang es
does_hang (report t core code ∷ es) = does_hang es
does_hang (hang ∷ es) = true

-- The handlers that are called, in order.
abbrev pub calls : List Event → List Handler
calls [] = []
calls (end_of_interrupt ∷ es) = calls es
calls (call h ∷ es) = h ∷ calls es
calls (report t core code ∷ es) = calls es
calls (hang ∷ es) = calls es

abbrev pub handlers_of : Option Handler → List Handler
handlers_of none = []
handlers_of (some h) = h ∷ []

-- The common handler hangs exactly for the exceptions, the vectors below 32, calls the handler of
-- the vector, if there is one, and no other, and first of all acknowledges the interrupt.
pub isr_handler_main_events :
    (handlers : ℕ → Option Handler) (k core code : ℕ)
    → let events = isr_handler_main handlers k core code in
      (does_hang events ≡ ltb k 32)
      × (calls events ≡ handlers_of (handlers k))
      × (take 1 events ≡ end_of_interrupt ∷ [])
isr_handler_main_events handlers k core code = elim (Option-cases (handlers k)) [
  | inl free ↦ rw (isr_handler_main_free handlers k core code free) (
      rw free (elim (Bool-cases (ltb k 32)) [
        | inl e ↦ rw e (refl, refl, refl)
        | inr e ↦ rw e (refl, refl, refl)
      ]))
  | inr (h, taken) ↦ rw (isr_handler_main_taken handlers k core code h taken) (
      rw taken (elim (Bool-cases (ltb k 32)) [
        | inl e ↦ rw e (refl, refl, refl)
        | inr e ↦ rw e (refl, refl, refl)
      ]))
]
