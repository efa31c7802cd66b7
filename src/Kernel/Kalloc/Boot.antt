-- ===== src/Kernel/Kalloc/Boot.antt =====
-- kernel/kalloc.c: what `freerange` and `kinit` leave on the free list.
use os_network_concurrency_s.Common.{
  ℕ, zero, suc, ◌+◌, ◌-◌, ◌/◌, ◌≡◌, ◌≢◌, ◌≤◌, ◌<◌, ◌%◌, refl, List, [], ◌∷◌, some, arith, length,
}
use os_network_concurrency_s.Kernel.Riscv.{pg_size, pg_round_up, phys_top}
use os_network_concurrency_s.Kernel.Memory.{Memory}
use os_network_concurrency_s.Kernel.Kalloc.{Kmem, freerange_from, freerange, kinit}
use os_network_concurrency_s.Kernel.Kalloc.Chain.{IsPage, NotIn, Represents}
use os_network_concurrency_s.Kernel.Kalloc.Refine.{kfree_pushes}

-- The `n` pages from `p` up, each put in front of the list in turn: the highest comes first.
abbrev pub pages_onto : ℕ → ℕ → List ℕ → List ℕ
pages_onto p zero ps = ps
pages_onto p (suc n) ps = pages_onto (p + pg_size) n (p ∷ ps)

pub length-pages_onto : (p n : ℕ) (ps : List ℕ) → length (pages_onto p n ps) ≡ n + length ps
length-pages_onto p zero ps = omega arith
length-pages_onto p (suc n) ps = omega (arith, length-pages_onto (p + pg_size) n (p ∷ ps))

abbrev AllBelow : ℕ → List ℕ → Type 0
AllBelow p [] = Unit
AllBelow p (q ∷ qs) = (q < p) × AllBelow p qs

AllBelow-NotIn : (p : ℕ) (ps : List ℕ) → AllBelow p ps → NotIn p ps
AllBelow-NotIn p [] h = tt
AllBelow-NotIn p (q ∷ qs) h = (omega arith, AllBelow-NotIn p qs h.1)

AllBelow-mono : (p p' : ℕ) (ps : List ℕ) → p ≤ p' → AllBelow p ps → AllBelow p' ps
AllBelow-mono p p' [] le h = tt
AllBelow-mono p p' (q ∷ qs) le h = (omega arith, AllBelow-mono p p' qs le h.1)

freerange_from_lem :
    (fuel n e p pa_end : ℕ) (k : Kmem) (ps : List ℕ)
    → n < fuel
    → p % pg_size ≡ 0
    → e ≤ p
    → p ≢ 0
    → pa_end ≤ phys_top
    → n ≡ (pa_end - p) / pg_size
    → AllBelow p ps
    → Represents e k ps
    → (k' : Kmem) × (freerange_from fuel e p pa_end k ≡ some k')
      × Represents e k' (pages_onto p n ps)
unfolding freerange_from
freerange_from_lem zero n e p pa_end k ps lt al ab nz top cnt bel r = absurd (omega arith)
freerange_from_lem (suc fuel) zero e p pa_end k ps lt al ab nz top cnt bel r = (k, ground arith, r)
freerange_from_lem (suc fuel) (suc n) e p pa_end k ps lt al ab nz top cnt bel r =
    let (k', freed, r') = kfree_pushes e p k ps page (AllBelow-NotIn p ps bel) r in
    let (k'', done, r'') =
      freerange_from_lem fuel n e (p + pg_size) pa_end k' (p ∷ ps) (omega arith) (omega arith)
        (omega arith) (omega arith) top (omega arith)
        (omega arith, AllBelow-mono p (p + pg_size) ps (omega arith) bel) r' in
    (k'', ground (arith, freed, done), r'')
  where
    page : IsPage e p
    page = omega arith

-- `kinit` does not panic, and puts on the free list exactly the pages that lie whole between the
-- end of the kernel and PHYSTOP, the highest first.
pub kinit_lem :
    (e : ℕ) (mem : Memory)
    → 0 < e
    → e ≤ phys_top
    → (k : Kmem) × (kinit e mem ≡ some k)
      × Represents e k (pages_onto (pg_round_up e) ((phys_top - pg_round_up e) / pg_size) [])
unfolding kinit freerange
kinit_lem e mem pos le =
    freerange_from_lem (phys_top / pg_size + 1) ((phys_top - pg_round_up e) / pg_size) e
      (pg_round_up e) phys_top (record { freelist = 0; mem = mem }) [] (omega arith) (omega arith)
      (omega arith) (omega arith) (omega arith) refl tt
      (record { chain = refl; valid = tt; distinct = tt })
