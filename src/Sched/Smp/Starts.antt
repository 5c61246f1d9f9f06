-- ===== src/Sched/Smp/Starts.antt =====
-- The cores that initSMP (kernel/sched/smp.c) starts, and their stacks.
use seaweed.Base.{none}
use seaweed.Base.{
  ℕ, zero, suc, ◌+◌, ◌-◌, ◌*◌, ◌^◌, ◌<◌, ◌≤◌, ◌≡◌, ◌≢◌, refl, arith, ◌==◌, if◌then◌else◌, true,
  false,
}
use seaweed.Base.{Bool-cases, inl, inr, List, [], ◌∷◌, ◌++◌}
use seaweed.Base.{u64, length}
use seaweed.Libk.Bitmap.{isset}
use seaweed.Mm.Layout.{pagesize, high_vma}
use seaweed.Mm.Run.Laws.{FreeRun}
use seaweed.Mm.Frames.{Frames, page_count, physical_page_alloc}
use seaweed.Mm.Paging.Space.Taken.{
  Takes, alloc-Takes, Later, Later-trans, Later-free, differ, Takes-Later, Takes-used, Takes-rest,
}
use seaweed.Acpi.Madt.{MadtInfo}
use seaweed.Sched.Task.{CpuInfo}
use seaweed.Int.Apic.{Store, send_ipi}
use seaweed.Base.{ap, u8, u32, ◌<<<◌, ◌%◌}
use seaweed.Sched.Smp.{
  StartStep, copy, argument, lapic, sleep, prep_trampoline, Handed, start_core, start_cores,
  init_smp,
}

-- The identities of the enabled cores among `left` entries from the `i`-th on.
unfoldable pub enabled : MadtInfo → ℕ → ℕ → List ℕ
enabled info zero i = []
enabled info (suc left) i =
    let rest = enabled info left (i + 1) in
    if (info.madt_entry0 i).flags == 1 then (info.madt_entry0 i).apic_id ∷ rest else rest

-- A store to a register of the local APIC.
abbrev pub store_at : ℕ → ℕ → ℕ → Store
store_at lapic_addr reg value = record {
  address = u64 (lapic_addr + high_vma + reg);
  value = value;
}

-- The steps that start the cores of a list, numbered from `number` on, the k-th with a stack in the
-- four pages from `stacks k` on: the end of the stack, the page tables, the entry point, the interrupt
-- table and the number of the core for the trampoline, then the interrupt INIT and the one that starts
-- the core at the page 1, each behind the identity that it is for, and a pause of 10 ms.
abbrev pub starts_of : Handed → ℕ → ℕ → List ℕ → (ℕ → ℕ) → List StartStep
starts_of h lapic_addr number [] stacks = []
starts_of h lapic_addr number (core_id ∷ ids) stacks =
    argument (0x500 + high_vma) (u64 (stacks 0 * pagesize + 0x4000 + high_vma))
    ∷ argument (0x508 + high_vma) h.pml4
    ∷ argument (0x510 + high_vma) h.kernel_main_smp
    ∷ argument (0x518 + high_vma) h.idtr
    ∷ argument (0x520 + high_vma) number
    ∷ lapic (store_at lapic_addr 0x310 (core_id % 256 * 2 ^ 24))
    ∷ lapic (store_at lapic_addr 0x300 0x500)
    ∷ lapic (store_at lapic_addr 0x310 (core_id % 256 * 2 ^ 24))
    ∷ lapic (store_at lapic_addr 0x300 0x601)
    ∷ sleep 10
    ∷ starts_of h lapic_addr (number + 1) ids (λ k. stacks (suc k))

starts_of-start_core :
    (h : Handed) (lapic_addr number core_id : ℕ) (ids : List ℕ) (stacks : ℕ → ℕ)
    → start_core h lapic_addr number core_id (stacks 0 * pagesize)
        ++ starts_of h lapic_addr (number + 1) ids (λ k. stacks (suc k))
      ≡ starts_of h lapic_addr number (core_id ∷ ids) stacks
unfolding start_core prep_trampoline send_ipi
starts_of-start_core h lapic_addr number core_id ids stacks =
    let id : u32 (u8 core_id <<< 24) ≡ core_id % 256 * 2 ^ 24 = omega arith in rw id refl

record Started (h : Handed) (info : MadtInfo) (left i : ℕ) (f : Frames) (number : ℕ) (ids : List ℕ)
    : Type 0 where
  pub frames : Frames
  pub stacks : ℕ → ℕ
  pub ran :
      start_cores h info left i f number
      ≡ (frames, number + length ids, starts_of h info.lapic_addr number ids stacks)
  pub later : Later f frames
  pub were_free : (k j : ℕ) → k < length ids → j < 4 → isset f.bitmap (stacks k + j) ≡ false
  pub used : (k j : ℕ) → k < length ids → j < 4 → isset frames.bitmap (stacks k + j) ≡ true
  pub apart : (k l a b : ℕ) → k < l → l < length ids → a < 4 → b < 4 → stacks k + a ≢ stacks l + b

stacks_from : ℕ → (ℕ → ℕ) → ℕ → ℕ
stacks_from page rest zero = page
stacks_from page rest (suc k) = rest k

module _ (h : Handed) (info : MadtInfo) (left i : ℕ) (f : Frames) (number r : ℕ) (ids : List ℕ)
    (t : Takes f 4 r (physical_page_alloc f 4))
    (rest : Started h info left (i + 1) (physical_page_alloc f 4).0 (number + 1) ids) where
  abbrev all_stacks : ℕ → ℕ
  all_stacks = stacks_from t.page rest.stacks

  were_free_all :
      (k j : ℕ) → k < suc (length ids) → j < 4 → isset f.bitmap (all_stacks k + j) ≡ false
  unfolding stacks_from
  were_free_all zero j lt j_in = t.was_free (t.page + j) (omega arith) (omega arith)
  were_free_all (suc k) j lt j_in =
      Later-free (rest.stacks k + j) (Takes-Later t) (rest.were_free k j (omega arith) j_in)

  used_all :
      (k j : ℕ) → k < suc (length ids) → j < 4 → isset rest.frames.bitmap (all_stacks k + j) ≡ true
  unfolding stacks_from
  used_all zero j lt j_in =
      rest.later.keeps (t.page + j) (Takes-used t (t.page + j) (omega arith) (omega arith))
  used_all (suc k) j lt j_in = rest.used k j (omega arith) j_in

  apart_all :
      (k l a b : ℕ)
      → k < l
      → l < suc (length ids)
      → a < 4
      → b < 4
      → all_stacks k + a ≢ all_stacks l + b
  unfolding stacks_from
  apart_all k zero a b lt l_in a_in b_in = absurd (omega arith)
  apart_all zero (suc l) a b lt l_in a_in b_in =
      differ (physical_page_alloc f 4).0 (t.page + a) (rest.stacks l + b)
        (Takes-used t (t.page + a) (omega arith) (omega arith))
        (rest.were_free l b (omega arith) b_in)
  apart_all (suc k) (suc l) a b lt l_in a_in b_in =
      rest.apart k l a b (omega arith) (omega arith) a_in b_in

  ran_all :
      (info.madt_entry0 i).flags ≡ 1
      → number + 1 < 2 ^ 64
      → start_cores h info (suc left) i f number ≡ (
        rest.frames,
        number + suc (length ids),
        starts_of h info.lapic_addr number ((info.madt_entry0 i).apic_id ∷ ids) all_stacks,
      )
  unfolding start_cores stacks_from
  ran_all flag fits =
      let wrap : u64 (number + 1) ≡ number + 1 = omega arith in
      let count : number + suc (length ids) ≡ number + 1 + length ids = omega arith in
      rw (flag, wrap, rest.ran, t.at, count)
        (ap (λ steps. (rest.frames, number + 1 + length ids, steps))
          (starts_of-start_core h info.lapic_addr number (info.madt_entry0 i).apic_id ids
            all_stacks))

  Started-cons :
      (info.madt_entry0 i).flags ≡ 1
      → number + 1 < 2 ^ 64
      → Started h info (suc left) i f number ((info.madt_entry0 i).apic_id ∷ ids)
  Started-cons flag fits = record {
    frames = rest.frames;
    stacks = all_stacks;
    ran = ran_all flag fits;
    later = Later-trans (Takes-Later t) rest.later;
    were_free = were_free_all;
    used = used_all;
    apart = apart_all;
  }

Started-skip :
    {h : Handed} {info : MadtInfo} {left i : ℕ} {f : Frames} {number : ℕ} {ids : List ℕ}
    → ((info.madt_entry0 i).flags == 1) ≡ false
    → Started h info left (i + 1) f number ids
    → Started h info (suc left) i f number ids
unfolding start_cores
Started-skip flag s = record {
  frames = s.frames;
  stacks = s.stacks;
  ran = rw flag s.ran;
  later = s.later;
  were_free = s.were_free;
  used = s.used;
  apart = s.apart;
}

start_cores-Started :
    (h : Handed) (info : MadtInfo) (left i : ℕ) (f : Frames) (number r : ℕ)
    → f.total_detected_memory < 2 ^ 64
    → number + left < 2 ^ 64
    → r + 4 * length (enabled info left i) ≤ page_count f
    → FreeRun f.bitmap r (4 * length (enabled info left i))
    → Started h info left i f number (enabled info left i)
unfolding enabled
start_cores-Started h info zero i f number r w few fits run = record {
  frames = f;
  stacks = λ k. 0;
  ran = unfold start_cores in ground arith;
  later = record { keeps = λ j used. used; same_size = refl };
  were_free = λ k j lt. absurd (omega arith);
  used = λ k j lt. absurd (omega arith);
  apart = λ k l a b lt l_in. absurd (omega arith);
}
start_cores-Started h info (suc left) i f number r w few fits run =
    elim (Bool-cases ((info.madt_entry0 i).flags == 1)) [
      | inl on ↦
          let n = 4 * length (enabled info left (i + 1)) in
          let more : 4 * suc (length (enabled info left (i + 1))) ≡ 4 + n = omega arith in
          let room : r + (4 + n) ≤ page_count f = rw more at (rw on at fits) in
          let free : FreeRun f.bitmap r (4 + n) = rw more at (rw on at run) in
          let t =
            alloc-Takes f 4 r (omega arith) w (omega arith) (λ j lo hi. free j lo (omega arith)) in
          rw on (
            Started-cons h info left i f number r (enabled info left (i + 1)) t
              (start_cores-Started h info left (i + 1) (physical_page_alloc f 4).0 (number + 1)
                (r + 4) (omega (arith, t.same_size)) (omega arith) (omega (arith, t.same_size))
                (Takes-rest t n free))
              (ground arith) (omega arith))
      | inr off ↦ rw off (
          Started-skip off (
            start_cores-Started h info left (i + 1) f number r w (omega arith) (rw off at fits)
              (rw off at run)))
    ]

-- Each of the first `count` stacks is four pages that were free and are in use now, and no two of the
-- stacks have a page in common.
pub record HaveStacks (f f' : Frames) (stacks : ℕ → ℕ) (count : ℕ) : Type 0 where
  pub were_free : (k j : ℕ) → k < count → j < 4 → isset f.bitmap (stacks k + j) ≡ false
  pub used : (k j : ℕ) → k < count → j < 4 → isset f'.bitmap (stacks k + j) ≡ true
  pub apart : (k l a b : ℕ) → k < l → l < count → a < 4 → b < 4 → stacks k + a ≢ stacks l + b

-- initSMP, where enough pages in a row are free for the stacks of the enabled cores, below 2^64
-- bytes of memory, and the numbers of the cores do not pass 2^64: it copies the trampoline, then for
-- exactly the entries from the second on whose flags are 1, in the order of the table, stores the five
-- arguments of the trampoline at 0x500 to 0x520 (the end of the core's stack, the page tables, the entry
-- point, the interrupt table and the core's number, counted up from the one before), writes 0x500 and
-- then 0x601 to the low register of the interrupt command, each behind the identity in the high one,
-- and sleeps 10 ms. The stack of each core is four pages that were free and are in use afterwards, and
-- no two cores share a page of them. The boot core's record has no current task.
pub init_smp_starts :
    (h : Handed) (info : MadtInfo) (f : Frames) (found : ℕ → CpuInfo) (number r : ℕ)
    → let ids = enabled info (info.madt_entry0_count - 1) 1 in
      f.total_detected_memory < 2 ^ 64
      → number + info.madt_entry0_count < 2 ^ 64
      → r + 4 * length ids ≤ page_count f
      → FreeRun f.bitmap r (4 * length ids)
      → (cpu_info : ℕ → CpuInfo) × (f' : Frames) × (stacks : ℕ → ℕ) × (init_smp h info f found
            number
          ≡ (
            cpu_info,
            f',
            number + length ids,
            copy (0x1000 + high_vma) (0x7e00 + high_vma) 64
                ∷ starts_of h info.lapic_addr number ids stacks,
          ))
        × ((cpu_info 0).current_task ≡ none)
        × HaveStacks f f' stacks (length ids)
unfolding init_smp
init_smp_starts h info f found number r w few fits run =
    let s =
      start_cores-Started h info (info.madt_entry0_count - 1) 1 f number r w (omega arith) fits
        run in
    (
      (init_smp h info f found number).0,
      s.frames,
      s.stacks,
      rw s.ran refl,
      refl,
      record { were_free = s.were_free; used = s.used; apart = s.apart },
    )
