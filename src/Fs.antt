-- ===== src/Fs.antt =====
-- kernel/fs: the file system.
pub mod Bfs
