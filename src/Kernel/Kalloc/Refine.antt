-- ===== src/Kernel/Kalloc/Refine.antt =====
-- kernel/kalloc.c: `kalloc` and `kfree` are pop and push on the list of free pages.
use os_network_concurrency_s.Common.{
  ℕ, ◌+◌, ◌≡◌, ◌≢◌, ◌≤◌, ◌<◌, ◌%◌, ◌⊎◌, refl, List, ◌∷◌, none, some, arith,
}
use os_network_concurrency_s.Kernel.Riscv.{pg_size, phys_top}
use os_network_concurrency_s.Kernel.Memory.{
  memset_page, memset_page_other, memset_page_outside, store_self,
}
use os_network_concurrency_s.Kernel.Kalloc.{Kmem, kfree, kalloc, push_page}
use os_network_concurrency_s.Kernel.Kalloc.Chain.{IsPage, NotIn, Represents, Chain-agree}

-- What `kalloc` does when the list is not empty.
kalloc_some :
    (k : Kmem) (p : ℕ)
    → k.freelist ≡ p
    → p ≢ 0
    → kalloc k ≡ (p, record { freelist = k.mem p; mem = memset_page k.mem p 5 })
unfolding kalloc
kalloc_some k p e ne = ground arith

-- On a nonempty list `kalloc` hands out the first page, keeps the others, and writes in no word
-- outside the page that it hands out.
pub kalloc_pops :
    (e : ℕ) (k : Kmem) (p : ℕ) (ps : List ℕ)
    → Represents e k (p ∷ ps)
    → ((kalloc k).0 ≡ p)
      × Represents e (kalloc k).1 ps
      × ((a : ℕ) → (a < p) ⊎ (p + pg_size ≤ a) → (kalloc k).1.mem a ≡ k.mem a)
kalloc_pops e k p ps r = rw (kalloc_some k p r.chain.0 r.valid.0.nonnull) (
  refl,
  record {
    chain =
        Chain-agree k.mem (memset_page k.mem p 5) (k.mem p) ps p
          (λ a. memset_page_other k.mem p 5 a r.valid.0.aligned) e r.valid.1 r.distinct.0 r.chain.1;
    valid = r.valid.1;
    distinct = r.distinct.1;
  },
  memset_page_outside k.mem p 5,
)

-- Freeing a page that the list does not hold puts it in front.
pub kfree_pushes :
    (e pa : ℕ) (k : Kmem) (ps : List ℕ)
    → IsPage e pa
    → NotIn pa ps
    → Represents e k ps
    → (k' : Kmem) × (kfree e pa k ≡ some k') × Represents e k' (pa ∷ ps)
unfolding kfree
kfree_pushes e pa k ps v out r = (
  push_page k pa,
  ground arith,
  record {
    chain = (
      refl,
      rw (store_self (memset_page k.mem pa 1) pa k.freelist)
          (Chain-agree k.mem (push_page k pa).mem k.freelist ps pa agree e r.valid out r.chain),
    );
    valid = (v, r.valid);
    distinct = (out, r.distinct);
  },
)
  where
    agree : (a : ℕ) → a % pg_size ≡ 0 → pa ≢ a → (push_page k pa).mem a ≡ k.mem a
    agree a h ne = ground (arith, memset_page_other k.mem pa 1 a v.aligned h ne)

-- `kfree` panics exactly on a pointer that is unaligned, below `end`, or not below PHYSTOP.
pub kfree-none :
    (e pa : ℕ) (k : Kmem)
    → ((kfree e pa k ≡ none) → (pa % pg_size ≢ 0) ⊎ ((pa < e) ⊎ (phys_top ≤ pa)))
      × ((pa % pg_size ≢ 0) ⊎ ((pa < e) ⊎ (phys_top ≤ pa)) → kfree e pa k ≡ none)
unfolding kfree
kfree-none e pa k = ground arith
