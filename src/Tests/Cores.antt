-- ===== src/Tests/Cores.antt =====
-- kernel/sched/smp.c and kernel/sched/hpet.c on a machine of four cores, one of them disabled.
use seaweed.Base.{◌<◌}
use seaweed.Base.{◌⊎◌}
use seaweed.Base.{none}
use seaweed.Base.{ℕ, ◌+◌, ◌*◌, ◌≡◌, refl, arith, ◌==◌, if◌then◌else◌}
use seaweed.Base.{some, List, [], ◌∷◌}
use seaweed.Base.{length, get_elem?}
use seaweed.Mm.Layout.{high_vma}
use seaweed.Mm.Frames.{Frames}
use seaweed.Acpi.Madt.{MadtInfo}
use seaweed.Int.Apic.{lapic_read}
use seaweed.Int.Gdt.{grab_tss}
use seaweed.Int.Gdt.Laws.{base}
use seaweed.Sched.Task.{CpuInfo}
use seaweed.Sched.Smp.{copy, Handed, init_smp, Cores}
use seaweed.Sched.Smp.Starts.{enabled, starts_of, HaveStacks, init_smp_starts}
use seaweed.Sched.Smp.Stacks.{Start, IsEven, run_cores, run_cores_next_segment}
use seaweed.Tests.Spaces.{frames, frames_free}
use seaweed.Tests.Descriptors.{cleared_gdt, cleared_tss}

abbrev blank : CpuInfo
blank = record { core_id = 0; number_of_tasks = 0; current_task = some 0 }

abbrev handed : Handed
handed = record { pml4 = 0x203000; kernel_main_smp = 0xffffffff80001000; idtr = 0xffffffff80009000 }

-- Four cores, of which the one with the identity 4 is disabled.
abbrev pub machine : MadtInfo
machine = record {
  madt_entry0_count = 4;
  madt_entry1_count = 0;
  madt_entry2_count = 0;
  madt_entry4_count = 0;
  madt_entry5_count = 0;
  madt_entry0 =
      λ i. record { acpi_processor_id = i; apic_id = i * 2; flags = if i == 2 then 0 else 1 };
  madt_entry1 = λ i. record { ioapic_id = 0; reserved = 0; ioapic_addr = 0; gsi_base = 0 };
  madt_entry2 = λ i. record { bus_src = 0; irq_src = 0; gsi = 0; flags = 0 };
  madt_entry4 = λ i. record { acpi_processor_id = 0; flags = 0; lint = 0 };
  madt_entry5 = λ i. record { reserved = 0; lapic_override = 0 };
  lapic_addr = 0xfee00000;
}

machine_ids : enabled machine 3 1 ≡ 2 ∷ 6 ∷ []
unfolding enabled
machine_ids = refl

init_smp_starts_example :
    (cpu_info : ℕ → CpuInfo) × (f' : Frames) × (stacks : ℕ → ℕ) × (init_smp handed machine
        (frames 0x228)
        (λ i. blank)
        1
      ≡ (
        cpu_info,
        f',
        1 + length (enabled machine 3 1),
        copy (0x1000 + high_vma) (0x7e00 + high_vma) 64
            ∷ starts_of handed 0xfee00000 1 (enabled machine 3 1) stacks,
      ))
    × ((cpu_info 0).current_task ≡ none)
    × HaveStacks (frames 0x228) f' stacks (length (enabled machine 3 1))
init_smp_starts_example =
    init_smp_starts handed machine (frames 0x228) (λ i. blank) 1 0x228 (omega arith) (omega arith)
      (rw machine_ids (omega arith)) (λ j lo hi. frames_free 0x228 j lo)

-- Two cores, behind the boot core, which has its segment.
abbrev two_cores : List Start
two_cores =
    record { reads = λ a. 2; scratch = 0xffffffff8022c000 }
    ∷ record { reads = λ a. 6; scratch = 0xffffffff80230000 }
    ∷ []

abbrev booted : Cores
booted = record {
  cpu_info = λ i. blank;
  cpu_info_index = 1;
  gdt = cleared_gdt;
  tss = record { entries = cleared_tss; max = 8; current = 1; capacity = 8 };
  frames = frames 0x228;
}

booted-IsEven : IsEven booted
booted-IsEven = record { index = refl; max = refl; capacity = refl }

run_cores_next_segment_example :
    (s' : Cores) × (d : Start) × (run_cores 0x300000 0x400000 0xfee00000 two_cores booted ≡ some s')
    × (get_elem? two_cores 1 ≡ some d)
    × ((s'.cpu_info (1 + 1)).core_id ≡ lapic_read d.reads 0xfee00000 0x20)
    × ((s'.tss.entries (1 + 1)).rsp0 ≡ 0xffffffff80230000)
    × (base (s'.gdt (1 + 1)).tss ≡ grab_tss 0x400000 (1 + 1 + 1))
    × (((1 + 1 < 2) × ((s'.tss.entries (1 + 1 + 1)).rsp0 ≡ 0))
        ⊎ ((1 + 1 ≡ 2) × (s'.tss.entries (1 + 1 + 1) ≡ cleared_tss 3)))
run_cores_next_segment_example =
    run_cores_next_segment 0x300000 0x400000 0xfee00000 two_cores booted 1 booted-IsEven
      (omega arith) (omega arith)
