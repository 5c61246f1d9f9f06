-- ===== src/Mm.antt =====
-- kernel/mm: physical pages, the kernel heap and the page tables.
pub mod Layout
pub mod Run
pub mod Frames
pub mod Heap
pub mod Paging
pub mod Boot
