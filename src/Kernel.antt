-- ===== src/Kernel.antt =====
-- The kernel of xv6-Lazy-Allocation, a module for each source file.
pub mod Riscv
pub mod Memory
pub mod Kalloc
pub mod PageTable
pub mod Paging
pub mod Pipe
pub mod Log
pub mod Strings
pub mod Console
pub mod Bio
pub mod Spinlock
pub mod File
pub mod Procs
pub mod Printf
pub mod Fs
