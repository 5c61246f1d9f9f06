-- ===== src/Sched/Smp/Stacks.antt =====
-- The records, descriptors and stacks of the cores that have gone through kernelMainSMP
-- (kernel/sched/smp.c), one after the other.
use seaweed.Base.{Bool-cases, inl, inr, ◌⊎◌}
use seaweed.Base.{ℕ, zero, suc, ◌+◌, ◌-◌, ◌^◌, ◌<◌, ◌≤◌, ◌≡◌, ◌≢◌, refl, arith, true, ltb}
use seaweed.Base.{Option, none, some, ◌>>=◌, ap, ◌∙◌, List, [], ◌∷◌}
use seaweed.Base.{u64, bit_or, length, get_elem?, get_or, update}
use seaweed.Mm.Frames.{physical_page_alloc}
use seaweed.Int.Apic.{Store, lapic_read, lapic_write}
use seaweed.Int.Gdt.{create_new_gdt, create_generic_tss, grab_tss}
use seaweed.Int.Gdt.Laws.{
  base, create_new_gdt_base, create_all, create_all_entries, create_all_beyond,
}
use seaweed.Sched.Smp.{Cores, kernel_main_smp}

-- A core's own inputs: what its local APIC reads, and the register of `stack`.
pub record Start : Type 0 where
  pub reads : ℕ → ℕ
  pub scratch : ℕ

-- The registers of the cores.
abbrev pub scratches : List Start → List ℕ
scratches [] = []
scratches (c ∷ cs) = c.scratch ∷ scratches cs

-- One segment for each core before, and the array of initTSS.
pub record IsEven (s : Cores) : Type 0 where
  pub index : s.cpu_info_index ≡ s.tss.current
  pub max : s.tss.max ≡ 8
  pub capacity : s.tss.capacity ≡ 8

length-scratches : (cs : List Start) → length (scratches cs) ≡ length cs
length-scratches [] = refl
length-scratches (c ∷ cs) = ap suc (length-scratches cs)

module _ (gdt_at tss_at lapic_addr : ℕ) where
  unfoldable pub run_cores : List Start → Cores → Option Cores
  run_cores [] s = some s
  run_cores (c ∷ cs) s = do
    (s', store, rsp) ← kernel_main_smp gdt_at tss_at lapic_addr c.reads c.scratch s
    run_cores cs s'

  -- A core that has run: what it wrote, and what it left.
  record Ran (c : Start) (s : Cores) : Type 0 where
    pub after : Cores
    pub store : Store
    pub rsp : ℕ
    pub made :
        kernel_main_smp gdt_at tss_at lapic_addr c.reads c.scratch s ≡ some (after, store, rsp)
    pub index : after.cpu_info_index ≡ s.cpu_info_index + 1
    pub tss : after.tss ≡ create_generic_tss c.scratch s.tss
    pub id : (after.cpu_info s.cpu_info_index).core_id ≡ lapic_read c.reads lapic_addr 0x20
    pub leads : base (after.gdt s.cpu_info_index).tss ≡ grab_tss tss_at (s.cpu_info_index + 1)
    pub infos : (j : ℕ) → j ≢ s.cpu_info_index → after.cpu_info j ≡ s.cpu_info j
    pub gdts : (j : ℕ) → j ≢ s.cpu_info_index → after.gdt j ≡ s.gdt j

  kernel_main_smp-Ran : (c : Start) (s : Cores) → s.cpu_info_index < 8 → Ran c s
  unfolding kernel_main_smp
  kernel_main_smp-Ran c s lt =
      let i = s.cpu_info_index in
      let next : u64 (i + 1) ≡ i + 1 = omega arith in
      let back : u64 (i + 1 + 2 ^ 64 - 1) ≡ i = omega arith in
      let in_block : ltb i 32 ≡ true = ground arith in
      let described = λ (j : ℕ) (ne : j ≢ i).
        create_new_gdt_base gdt_at s.gdt i (grab_tss tss_at (i + 1)) j (omega arith) ne in
      record {
        after = record {
          cpu_info = update s.cpu_info i (record (s.cpu_info i) {
            core_id = lapic_read c.reads lapic_addr 0x20;
            current_task = none;
          });
          cpu_info_index = i + 1;
          gdt = create_new_gdt gdt_at s.gdt i (grab_tss tss_at (i + 1));
          tss = create_generic_tss c.scratch s.tss;
          frames = (physical_page_alloc s.frames 4).0;
        };
        store = lapic_write lapic_addr 0xf0 (bit_or (lapic_read c.reads lapic_addr 0xf0) 0x1ff);
        rsp = c.scratch;
        made = rw (in_block, next, back) refl;
        index = refl;
        tss = refl;
        id = ground arith;
        leads = (described (i + 1) (omega arith)).0;
        infos = λ j ne. ground arith;
        gdts = λ j ne. (described j ne).2;
      }

  -- The cores of a list have run, from the core of the state's counter on.
  record AllRan (cs : List Start) (s : Cores) : Type 0 where
    pub after : Cores
    pub made : run_cores cs s ≡ some after
    pub tss : after.tss ≡ create_all (scratches cs) s.tss
    pub ids :
        (k : ℕ)
        → k < length cs
        → (d : Start) × (get_elem? cs k ≡ some d)
          × ((after.cpu_info (s.cpu_info_index + k)).core_id ≡ lapic_read d.reads lapic_addr 0x20)
    pub leads :
        (k : ℕ)
        → k < length cs
        → base (after.gdt (s.cpu_info_index + k)).tss ≡ grab_tss tss_at (s.cpu_info_index + k + 1)
    pub infos : (j : ℕ) → j < s.cpu_info_index → after.cpu_info j ≡ s.cpu_info j
    pub gdts : (j : ℕ) → j < s.cpu_info_index → after.gdt j ≡ s.gdt j

  module _ (c : Start) (cs : List Start) (s : Cores) (r : Ran c s) (rest : AllRan cs r.after) where
    ids_all :
        (k : ℕ)
        → k < length (c ∷ cs)
        → (d : Start) × (get_elem? (c ∷ cs) k ≡ some d)
          × ((rest.after.cpu_info (s.cpu_info_index + k)).core_id
              ≡ lapic_read d.reads lapic_addr 0x20)
    ids_all zero lt =
        let at : s.cpu_info_index + 0 ≡ s.cpu_info_index = omega arith in
        (
          c,
          refl,
          rw at (ap (λ e. e.core_id) (rest.infos s.cpu_info_index (omega (arith, r.index))) ∙ r.id),
        )
    ids_all (suc k) lt =
        let at : s.cpu_info_index + suc k ≡ r.after.cpu_info_index + k = omega (arith, r.index) in
        let (d, is, id) = rest.ids k (omega arith) in (d, is, rw at id)

    leads_all :
        (k : ℕ)
        → k < length (c ∷ cs)
        → base (rest.after.gdt (s.cpu_info_index + k)).tss
          ≡ grab_tss tss_at (s.cpu_info_index + k + 1)
    leads_all zero lt =
        let at : s.cpu_info_index + 0 ≡ s.cpu_info_index = omega arith in
        rw at (ap (λ g. base g.tss) (rest.gdts s.cpu_info_index (omega (arith, r.index))) ∙ r.leads)
    leads_all (suc k) lt =
        let at : s.cpu_info_index + suc k ≡ r.after.cpu_info_index + k = omega (arith, r.index) in
        rw at (rest.leads k (omega arith))

    AllRan-cons : AllRan (c ∷ cs) s
    AllRan-cons = record {
      after = rest.after;
      made = unfold run_cores in rw (r.made, rest.made) refl;
      tss = rest.tss ∙ ap (create_all (scratches cs)) r.tss;
      ids = ids_all;
      leads = leads_all;
      infos = λ j lt. rest.infos j (omega (arith, r.index)) ∙ r.infos j (omega arith);
      gdts = λ j lt. rest.gdts j (omega (arith, r.index)) ∙ r.gdts j (omega arith);
    }

  run_cores-AllRan : (cs : List Start) (s : Cores) → s.cpu_info_index + length cs ≤ 8 → AllRan cs s
  run_cores-AllRan [] s room = record {
    after = s;
    made = unfold run_cores in refl;
    tss = refl;
    ids = λ k lt. absurd (omega arith);
    leads = λ k lt. absurd (omega arith);
    infos = λ j lt. refl;
    gdts = λ j lt. refl;
  }
  run_cores-AllRan (c ∷ cs) s room =
      let r = kernel_main_smp-Ran c s (omega arith) in
      AllRan-cons c cs s r (run_cores-AllRan cs r.after (omega (arith, r.index)))

  -- Cores that go through kernelMainSMP one after the other, with at most eight in all, where each of
  -- the cores before has one task state segment and the array is as initTSS left it: all of them get
  -- through, the k-th has its record with the identity its local APIC reads, and the segment stored for
  -- it, the one at its own index, has the register that the inline assembly left; but its descriptor
  -- leads to the segment behind, which is that of the next core, and for the last core is one that
  -- nothing has stored.
  pub run_cores_next_segment :
      (cs : List Start) (s : Cores) (k : ℕ)
      → IsEven s
      → s.cpu_info_index + length cs ≤ 8
      → k < length cs
      → (s' : Cores) × (d : Start) × (run_cores cs s ≡ some s')
        × (get_elem? cs k ≡ some d)
        × ((s'.cpu_info (s.cpu_info_index + k)).core_id ≡ lapic_read d.reads lapic_addr 0x20)
        × ((s'.tss.entries (s.cpu_info_index + k)).rsp0 ≡ get_or (scratches cs) k 0)
        × (base (s'.gdt (s.cpu_info_index + k)).tss ≡ grab_tss tss_at (s.cpu_info_index + k + 1))
        × (((k + 1 < length cs)
              × ((s'.tss.entries (s.cpu_info_index + k + 1)).rsp0
                  ≡ get_or (scratches cs) (k + 1) 0))
            ⊎ ((k + 1 ≡ length cs)
                × (s'.tss.entries (s.cpu_info_index + k + 1)
                    ≡ s.tss.entries (s.cpu_info_index + k + 1))))
  run_cores_next_segment cs s k even room lt =
      let a = run_cores-AllRan cs s room in
      let (d, is, id) = a.ids k lt in
      let n = length-scratches cs in
      let i = s.cpu_info_index in
      let at = even.index in
      let fits : s.tss.current + length (scratches cs) ≤ 8 = omega (arith, n, at) in
      let stored = λ (j : ℕ) (j_in : j < length cs).
        (create_all_entries (scratches cs) s.tss j fits even.max even.capacity).2
          (omega (arith, n)) in
      let next : i + k + 1 ≡ i + (k + 1) = omega arith in
      (
        a.after,
        d,
        a.made,
        is,
        id,
        rw (a.tss, at) (stored k lt),
        a.leads k lt,
        elim (Bool-cases (ltb (k + 1) (length cs))) [
          | inl more ↦ inl (ground arith, rw (next, a.tss, at) (stored (k + 1) (ground arith)))
          | inr last ↦ inr (
            ground arith,
            rw a.tss (
                create_all_beyond (scratches cs) s.tss (i + k + 1) fits even.max even.capacity
                  (ground (arith, n, at))),
          )
        ],
      )
