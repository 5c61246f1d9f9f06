-- ===== src/Sched/Create/Step.antt =====
-- What one of the calls at the end of bootMain (kernel/kernelMain.c) does.
use seaweed.Base.{ℕ, suc, ◌+◌, ◌-◌, ◌*◌, ◌^◌, ◌<◌, ◌≤◌, ◌≡◌, ◌≢◌, refl, arith}
use seaweed.Base.{some}
use seaweed.Base.{u64}
use seaweed.Mm.Layout.{high_vma}
use seaweed.Mm.Run.Laws.{FreeRun}
use seaweed.Mm.Frames.{physical_page_alloc}
use seaweed.Mm.Paging.{Words}
use seaweed.Mm.Paging.Space.Taken.{
  Takes, alloc-Takes, Later, Later-trans, Later-free, Takes-Later, Takes-rest, One, alloc-One,
}
use seaweed.Mm.Paging.Space.Placed.{Placed, Creation, Creation-keeps}
use seaweed.Mm.Paging.Space.Created.{create-Creation}
use seaweed.Mm.Paging.Space.Sequence.{Ready, slot_found, Creation-Ready}
use seaweed.Sched.Task.{Regs, waiting_to_start, Task}
use seaweed.Sched.Create.{Kernel, new_task, set_regs}
use seaweed.Sched.Create.NewTask.{
  find_free_index-packed, added_number, added_last, added_old, added_room, added-IsPacked,
  added-IsConsistent,
}
use seaweed.Sched.Create.Runs.{finished, with_task, create_new_task-some, stack_top}
use seaweed.Sched.Create.Booting.{TaskCall, create_task, CanCreate, Placed-Later, Ready-Later}

-- One call that took its pages from `r` on, with `n` behind them.
pub record OneTask (m0 : Words) (k : Kernel) (t : TaskCall) (index r n c : ℕ) : Type 0 where
  pub after : Kernel
  pub base : ℕ
  pub made : create_task k t ≡ some after
  pub placed : Placed after.vmm after.frames index t.page_cnt base
  pub free_pages : FreeRun k.frames.bitmap base t.page_cnt
  pub keeps :
      (slot size base' : ℕ)
      → slot ≢ index
      → Placed k.vmm k.frames slot size base'
      → Placed after.vmm after.frames slot size base'
  pub later : Later k.frames after.frames
  pub same_count : after.vmm.page_directory_count ≡ k.vmm.page_directory_count
  pub number : after.sched.number_of_tasks ≡ k.sched.number_of_tasks + 1
  pub stands :
      let new = after.sched.tasks k.sched.number_of_tasks in
      (new.pml4_index ≡ index)
      × (new.entry_point ≡ t.entry_point)
      × (new.status ≡ waiting_to_start)
      × (new.regs.cs ≡ t.cs)
      × (new.regs.ss ≡ t.ss)
  pub old : (j : ℕ) → j < k.sched.number_of_tasks → after.sched.tasks j ≡ k.sched.tasks j
  pub next : CanCreate m0 after (index + 1) (r + (t.page_cnt + 7)) n c

module _ (m0 : Words) (k : Kernel) (t : TaskCall) (index r n c : ℕ)
    (can : CanCreate m0 k index r (t.page_cnt + 7 + n) (suc c))
    (o : One k.frames r (t.page_cnt + 6 + n))
    (made : Creation k.vmm o.after index t.page_cnt (r + 1) (2 + n))
    (stack : Takes made.frames 2
      (r + 1 + (t.page_cnt + 4))
      (physical_page_alloc made.frames 2)) where
  abbrev middle : Kernel
  middle = record k { vmm = made.after; frames = made.frames }

  abbrev regs : Regs
  regs = set_regs t.held t.ss (u64 (o.page * 4096 + high_vma + 0x1000)) t.cs

  abbrev number : ℕ
  number = k.sched.number_of_tasks

  abbrev after : Kernel
  after = with_task middle regs t.unset t.entry_point number index

  abbrev new : Task
  new = finished middle regs t.unset t.entry_point number index

  starts : new.status ≡ waiting_to_start
  starts = unfold new_task in refl

  some_room : number < 2 ^ 64 - 1
  some_room = omega (arith, can.room, can.max_word)

  made_task : create_task k t ≡ some after
  unfolding create_task
  made_task = rw o.took (
      create_new_task-some (record k { frames = o.after }) t.held t.unset t.ss _ t.cs t.entry_point
        t.page_cnt number index made.after made.frames
        (find_free_index-packed k.sched can.packed (omega (arith, can.room))) made.made can.heap.0)

  frames_grow : Later k.frames after.frames
  frames_grow = Later-trans o.later (Later-trans made.later (Takes-Later stack))

  stack_some : new.kernel_stack ≢ 0
  stack_some =
      unfold new_task in
      stack_top made.frames (omega (arith, can.memory, o.later.same_size, made.later.same_size))

  last_is : after.sched.tasks number ≡ new
  last_is = added_last k.sched made.after new starts some_room

  after_stack : Ready m0 k.vmm o.after index (r + 1) (t.page_cnt + 4 + (2 + n))
  after_stack =
      Ready-Later can.spaces o.later (omega (arith, o.fits)) (λ j lo hi. o.run j lo (omega arith))

  next_spaces : Ready m0 after.vmm after.frames (index + 1) (r + (t.page_cnt + 7)) n
  next_spaces =
      let ready =
        Creation-Ready m0 k.vmm o.after index (r + 1) (2 + n) t.page_cnt after_stack made in
      Ready-Later ready (Takes-Later stack) (omega (arith, made.fits, stack.same_size))
        (λ j lo hi. Takes-rest stack n made.run j (omega arith) (omega arith))

  same_max : after.sched.max_number_of_tasks ≡ k.sched.max_number_of_tasks
  same_max = added_room k.sched made.after new starts some_room

  step : OneTask m0 k t index r n c
  step = record {
    after = after;
    base = made.base;
    made = made_task;
    placed = Placed-Later (Takes-Later stack) made.placed;
    free_pages = λ j lo hi. Later-free j o.later (made.free_pages j lo hi);
    keeps = λ slot size base' ne p.
        Placed-Later (Takes-Later stack)
          (Creation-keeps made slot size base' ne (Placed-Later o.later p));
    later = frames_grow;
    same_count = made.same_count;
    number = added_number k.sched made.after new starts some_room;
    stands = rw last_is (unfold new_task set_regs in (refl, refl, refl, refl, refl));
    old = λ j lt. added_old k.sched made.after new starts some_room j (omega arith);
    next = record {
      spaces = next_spaces;
      memory = omega (arith, can.memory, frames_grow.same_size);
      consistent = added-IsConsistent k.sched made.after new starts some_room can.consistent;
      packed = added-IsPacked k.sched made.after new starts some_room stack_some can.packed;
      room =
          omega (arith, can.room, added_number k.sched made.after new starts some_room, same_max);
      max_word = omega (arith, can.max_word, same_max);
      heap = can.heap.1;
    };
  }

pub create_task-OneTask :
    (m0 : Words) (k : Kernel) (t : TaskCall) (index r n c : ℕ)
    → index < k.vmm.page_directory_count
    → 0 < t.page_cnt
    → t.page_cnt ≤ 512
    → CanCreate m0 k index r (t.page_cnt + 7 + n) (suc c)
    → OneTask m0 k t index r n c
create_task-OneTask m0 k t index r n c slot pos few can =
    let spaces = can.spaces in
    let o =
      alloc-One k.frames r (t.page_cnt + 6 + n) (omega (arith, can.memory))
        (omega (arith, spaces.fits)) (λ j lo hi. spaces.run j lo (omega arith)) in
    let made =
      create-Creation k.vmm o.after index t.page_cnt (r + 1) (2 + n)
        (slot_found k.vmm index spaces.slots slot) pos few
        (omega (arith, spaces.memory, o.later.same_size)) (omega (arith, o.fits))
        (λ j lo hi. o.run j lo (omega arith)) in
    let stack =
      alloc-Takes made.frames 2 (r + 1 + (t.page_cnt + 4)) (omega arith)
        (omega (arith, spaces.memory, o.later.same_size, made.later.same_size))
        (omega (arith, made.fits)) (λ j lo hi. made.run j lo (omega arith)) in
    step m0 k t index r n c can o made stack
