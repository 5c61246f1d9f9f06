-- ===== src/Libk.antt =====
-- lib/libk: the kernel's small C library.
pub mod Bitmap
pub mod Memory
pub mod Text
pub mod Print
