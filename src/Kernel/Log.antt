-- ===== src/Kernel/Log.antt =====
-- kernel/log.c: the write-ahead log, over the buffer cache and the disk. A block is a value of `B`.
-- `cache` is what `bread` sees and `disk` what is on the platter. `power` is the number of block
-- writes that still reach the disk before the machine stops: a run under every power is a run with
-- a crash at every point. The header's layout in a block is the parameter `format`.
pub mod Ops
pub mod Copies
pub mod Crash
mod Tests
