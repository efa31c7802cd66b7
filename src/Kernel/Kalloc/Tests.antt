-- ===== src/Kernel/Kalloc/Tests.antt =====
-- kernel/kalloc.c at concrete inputs.
use os_network_concurrency_s.Common.{
  ℕ, ◌+◌, ◌-◌, ◌/◌, ◌≡◌, ◌≤◌, ◌<◌, ◌⊎◌, refl, [], ◌∷◌, some, arith,
}
use os_network_concurrency_s.Kernel.Riscv.{pg_size, pg_round_up, phys_top, kern_base}
use os_network_concurrency_s.Kernel.Memory.{Memory}
use os_network_concurrency_s.Kernel.Kalloc.{Kmem, kfree, kalloc, kinit}
use os_network_concurrency_s.Kernel.Kalloc.Chain.{Represents}
use os_network_concurrency_s.Kernel.Kalloc.Refine.{kalloc_pops, kfree_pushes}
use os_network_concurrency_s.Kernel.Kalloc.Boot.{pages_onto, kinit_lem}

abbrev page : ℕ
page = 0x80001000

abbrev zeroed : Memory
zeroed _ = 0

abbrev no_pages : Kmem
no_pages = record { freelist = 0; mem = zeroed }

abbrev one_page : Kmem
one_page = record { freelist = page; mem = zeroed }

one_page-Represents : Represents kern_base one_page (page ∷ [])
one_page-Represents = record {
  chain = (refl, refl);
  valid = (omega arith, tt);
  distinct = (tt, tt);
}

kalloc_pops_example :
    ((kalloc one_page).0 ≡ page)
    × Represents kern_base (kalloc one_page).1 []
    × ((a : ℕ) → (a < page) ⊎ (page + pg_size ≤ a) → (kalloc one_page).1.mem a ≡ one_page.mem a)
kalloc_pops_example = kalloc_pops kern_base one_page page [] one_page-Represents

kfree_pushes_example :
    (k' : Kmem) × (kfree kern_base (page + pg_size) one_page ≡ some k')
    × Represents kern_base k' ((page + pg_size) ∷ page ∷ [])
kfree_pushes_example =
    kfree_pushes kern_base (page + pg_size) one_page (page ∷ []) (omega arith) (omega arith, tt)
      one_page-Represents

abbrev late_end : ℕ
late_end = phys_top - pg_size - pg_size - 5

kinit_lem_example :
    (k : Kmem) × (kinit late_end zeroed ≡ some k)
    × Represents late_end k
        (pages_onto (pg_round_up late_end) ((phys_top - pg_round_up late_end) / pg_size) [])
kinit_lem_example = kinit_lem late_end zeroed (omega arith) (omega arith)

-- Two pages fit, and the higher one comes first.
two_pages :
    pages_onto (pg_round_up late_end) ((phys_top - pg_round_up late_end) / pg_size) []
    ≡ (phys_top - pg_size) ∷ (phys_top - pg_size - pg_size) ∷ []
two_pages = refl

-- The links run through memory: the second page is read back from the first.
kalloc_twice : (kalloc (kalloc (record one_page { mem = λ a. a + pg_size })).1).0 ≡ page + pg_size
unfolding kalloc
kalloc_twice = refl
