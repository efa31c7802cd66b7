-- ===== src/Kernel/Riscv.antt =====
-- kernel/riscv.h, kernel/memlayout.h: page size, rounding, address space and PTE layout.
-- The addresses are uint64; the masks are powers of two, so they are divisions here.
use os_network_concurrency_s.Common.{ℕ, ◌+◌, ◌-◌, ◌*◌, ◌/◌, ◌%◌, ◌^◌}

abbrev pub pg_size : ℕ
pg_size = 4096

-- `((sz) + PGSIZE - 1) & ~(PGSIZE - 1)`
abbrev pub pg_round_up : ℕ → ℕ
pg_round_up sz = (sz + pg_size - 1) % 2 ^ 64 / pg_size * pg_size

abbrev pub pg_round_down : ℕ → ℕ
pg_round_down a = a / pg_size * pg_size

abbrev pub max_va : ℕ
max_va = 2 ^ 38

abbrev pub trampoline : ℕ
trampoline = max_va - pg_size

abbrev pub trapframe : ℕ
trapframe = trampoline - pg_size

abbrev pub kern_base : ℕ
kern_base = 0x80000000

abbrev pub phys_top : ℕ
phys_top = kern_base + 128 * 1024 * 1024
