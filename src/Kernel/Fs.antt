-- ===== src/Kernel/Fs.antt =====
-- kernel/fs.c: the layers of the file system above the buffer cache.
pub mod Blocks
pub mod Content
pub mod Paths
pub mod Inodes
pub mod Dirs
mod Tests
