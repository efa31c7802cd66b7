-- ===== src/Kernel/PageTable/Read.antt =====
-- kernel/vm.c: reading a page table changes nothing.
use os_network_concurrency_s.Common.{ℕ, zero, suc, ◌≡◌, false, refl, arith}
use os_network_concurrency_s.Kernel.Kalloc.{Kmem}
use os_network_concurrency_s.Kernel.PageTable.{walk_from, pte_address}
use os_network_concurrency_s.Kernel.PageTable.Entry.{pte2pa}

-- A walk that may not allocate leaves the allocator and memory as they are.
pub walk_from-readonly :
    (level pagetable va : ℕ) (k : Kmem) → (walk_from level pagetable va false k).1 ≡ k
unfolding walk_from
walk_from-readonly zero pagetable va k = refl
walk_from-readonly (suc level) pagetable va k =
    ground
      (arith, walk_from-readonly level (pte2pa (k.mem (pte_address pagetable (suc level) va))) va k)
