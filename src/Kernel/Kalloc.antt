-- ===== src/Kernel/Kalloc.antt =====
-- kernel/kalloc.c: the physical page allocator, a linked list threaded through the free pages.
-- Each call runs under kmem.lock, so it is one atomic step; `none` is a panic. The link of a free
-- page is the word at its address, and a null pointer is 0. `kernel_end` is the linker's `end`.
pub mod Chain
pub mod Refine
pub mod Boot
mod Tests
use os_network_concurrency_s.Common.{
  ℕ, zero, suc, ◌+◌, ◌-◌, ◌*◌, ◌/◌, ◌%◌, ◌^◌, Option, none, some, ◌||◌, not, ltb, leb, ◌==◌,
  if◌then◌else◌,
}
use os_network_concurrency_s.Kernel.Riscv.{pg_size, pg_round_up, phys_top}
use os_network_concurrency_s.Kernel.Memory.{Memory, store, memset_page}

-- `kmem`, with the memory that its list runs through
pub record Kmem : Type 0 where
  pub freelist : ℕ
  pub mem : Memory

-- `r->next = kmem.freelist; kmem.freelist = r`
abbrev pub push_page : Kmem → ℕ → Kmem
push_page k pa = record { freelist = pa; mem = store (memset_page k.mem pa 1) pa k.freelist }

unfoldable pub kfree : ℕ → ℕ → Kmem → Option Kmem
kfree kernel_end pa k =
    if not (pa % pg_size == 0) || (ltb pa kernel_end || leb phys_top pa)
    then none
    else some (push_page k pa)

-- The new page, or 0. It is filled with junk, the link it held included.
unfoldable pub kalloc : Kmem → ℕ × Kmem
kalloc k =
    if k.freelist == 0
    then (0, k)
    else (k.freelist, record { freelist = k.mem k.freelist; mem = memset_page k.mem k.freelist 5 })

-- The loop of `freerange`, on fuel: `none` is a panic or fuel that ran out.
pub freerange_from : ℕ → ℕ → ℕ → ℕ → Kmem → Option Kmem
freerange_from zero kernel_end p pa_end k = none
freerange_from (suc fuel) kernel_end p pa_end k =
    if leb (p + pg_size) pa_end
    then elim (kfree kernel_end p k) [
      | none ↦ none
      | some k' ↦ freerange_from fuel kernel_end (p + pg_size) pa_end k'
    ]
    else some k

-- One round for each page, and one to see that the range is done.
pub freerange : ℕ → ℕ → ℕ → Kmem → Option Kmem
freerange kernel_end pa_start pa_end k =
    freerange_from (pa_end / pg_size + 1) kernel_end (pg_round_up pa_start) pa_end k

-- The list starts as C's zeroed data.
pub kinit : ℕ → Memory → Option Kmem
kinit kernel_end mem = freerange kernel_end kernel_end phys_top (record { freelist = 0; mem = mem })
