-- ===== src/Kernel/Paging.antt =====
-- kernel/vm.c: demand paging. The resident set in FIFO order, the swap slots, eviction and the page
-- fault handler. The paging fields of `struct proc` keep the source's arrays as functions of the
-- index with their counts. The inode layer (kernel/fs.c) is the parameter `files`.
pub mod State
pub mod Swap
pub mod Fault
mod Tests
