-- ===== src/Sched/Smp.antt =====
-- kernel/sched/smp.c: the start of the other cores. The words that the cores find at 0x500, the
-- stores to the local APIC and the pauses are the steps that initSMP makes.
pub mod Starts
pub mod Stacks
use seaweed.Base.{
  ℕ, zero, suc, ◌+◌, ◌-◌, ◌*◌, ◌/◌, ◌%◌, ◌^◌, ◌<◌, ◌≤◌, ◌≡◌, ◌≢◌, refl, arith, ◌==◌, if◌then◌else◌,
  Bool, true, false, ltb, leb, ==_iff, ltb→lt, leb→le, lt→ltb,
}
use seaweed.Base.{
  Bool-cases, Option-cases, inl, inr, ◌⊎◌, ◌↔◌, not, ◌&&◌, ◌||◌, Option, none, some, sym, ap, ◌∙◌,
  List, [], ◌∷◌, ◌++◌, map,
}
use seaweed.Base.{
  u8, u16, u32, u64, ◌<<<◌, ◌>>>◌, bit_and, bit_or, bit_xor, not32, length, get_elem?, get_or, take,
  drop, replicate, update,
}
use seaweed.Mm.Layout.{high_vma, kernel_high_vma}
use seaweed.Mm.Frames.{Frames, physical_page_alloc}
use seaweed.Sched.Task.{CpuInfo}
use seaweed.Acpi.Madt.{MadtEntry0, MadtInfo}
use seaweed.Int.Apic.{Store, lapic_read, lapic_write, send_ipi}
use seaweed.Int.Gdt.{GdtTable, create_new_gdt, TssArray, create_generic_tss, grab_tss}

-- The words of the trampoline that are copied, an argument stored for it, a store to the local APIC,
-- and a call of `ksleep`.
pub data StartStep : Type 0 where
  copy : (to from count : ℕ) → StartStep
  argument : (address value : ℕ) → StartStep
  lapic : Store → StartStep
  sleep : (ms : ℕ) → StartStep

-- `prepTrampoline`: its stores. The last argument is `numberOfCores`, which it then increments.
unfoldable pub prep_trampoline : ℕ → ℕ → ℕ → ℕ → ℕ → List StartStep
prep_trampoline number stack pml4 entry_point idt =
    argument (0x500 + high_vma) stack
    ∷ argument (0x508 + high_vma) pml4
    ∷ argument (0x510 + high_vma) entry_point
    ∷ argument (0x518 + high_vma) idt
    ∷ argument (0x520 + high_vma) number
    ∷ []

-- The addresses that initSMP hands over: the page tables, `kernelMainSMP` and the interrupt table's
-- pointer.
pub record Handed : Type 0 where
  pub pml4 : ℕ
  pub kernel_main_smp : ℕ
  pub idtr : ℕ

-- The steps for one core: its arguments, the two interrupts, the second with the page of the
-- trampoline, and the pause.
unfoldable pub start_core : Handed → ℕ → ℕ → ℕ → ℕ → List StartStep
start_core h lapic_addr number core_id page_addr =
    prep_trampoline number (u64 (page_addr + 0x4000 + high_vma)) h.pml4 h.kernel_main_smp h.idtr
    ++ map lapic (send_ipi lapic_addr core_id 0x500)
    ++ map lapic (send_ipi lapic_addr core_id (bit_or 0x600 (u32 (0x1000 / 0x1000))))
    ++ sleep 10 ∷ []

-- The loop of `initSMP`, with the rounds that are left: the frames, `numberOfCores` and the steps.
unfoldable pub start_cores : Handed → MadtInfo → ℕ → ℕ → Frames → ℕ → Frames × ℕ × List StartStep
start_cores h info zero i f number = (f, number, [])
start_cores h info (suc left) i f number =
    let (f1, page_addr) = physical_page_alloc f 4 in
    let (f2, number2, steps) = start_cores h info left (i + 1) f1 (u64 (number + 1)) in
    let skipped = start_cores h info left (i + 1) f number in
    let e = info.madt_entry0 i in
    if e.flags == 1
    then (f2, number2, start_core h info.lapic_addr number e.apic_id page_addr ++ steps)
    else skipped

-- `initSMP`, from the first assignment to `cpuInfo` on; `found` is what its block holds.
unfoldable pub init_smp :
    Handed → MadtInfo → Frames → (ℕ → CpuInfo) → ℕ → (ℕ → CpuInfo) × Frames × ℕ × List StartStep
init_smp h info f found number =
    let (f', number', steps) = start_cores h info (info.madt_entry0_count - 1) 1 f number in
    (
      update found 0 (record (found 0) { current_task = none }),
      f',
      number',
      copy (0x1000 + high_vma) (0x7e00 + high_vma) (0x200 / 8) ∷ steps,
    )

-- What the cores share: the records, and the counter, of smp.c, the tables of gdt.c and tss.c, and the
-- frames.
pub record Cores : Type 0 where
  pub cpu_info : ℕ → CpuInfo
  pub cpu_info_index : ℕ
  pub gdt : ℕ → GdtTable
  pub tss : TssArray
  pub frames : Frames

-- `kernelMainSMP` up to `lapicTimerInit`, on a core whose local APIC reads `reads`. The inline
-- assembly declares `stack` as its output: it loads rsp from the register that stands for `stack`, and
-- leaves that register, `scratch`, in `stack`. The result is the state, the store and rsp; it is `none`
-- where `cpuInfo`, a block of 32 records, has no record for the core.
unfoldable pub kernel_main_smp : ℕ → ℕ → ℕ → (ℕ → ℕ) → ℕ → Cores → Option (Cores × Store × ℕ)
kernel_main_smp gdt_at tss_at lapic_addr reads scratch s =
    let i = s.cpu_info_index in
    let next = u64 (i + 1) in
    let (frames, page_addr) = physical_page_alloc s.frames 4 in
    if ltb i 32
    then some (
      record {
        cpu_info = update s.cpu_info i (record (s.cpu_info i) {
          core_id = lapic_read reads lapic_addr 0x20;
          current_task = none;
        });
        cpu_info_index = next;
        gdt = create_new_gdt gdt_at s.gdt (u64 (next + 2 ^ 64 - 1)) (grab_tss tss_at next);
        tss = create_generic_tss scratch s.tss;
        frames = frames;
      },
      lapic_write lapic_addr 0xf0 (bit_or (lapic_read reads lapic_addr 0xf0) 0x1ff),
      scratch,
    )
    else none
