-- ===== src/Sched.antt =====
-- kernel/sched: the tasks, the cores that run them, and the scheduler's interrupt.
pub mod Task
pub mod Scheduler
pub mod Lock
pub mod Create
pub mod Hpet
pub mod Smp
