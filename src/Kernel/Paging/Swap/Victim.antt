-- ===== src/Kernel/Paging/Swap/Victim.antt =====
-- kernel/vm.c: the loop of `evict_page` that picks the victim.
use native.Mathlib.Nat.{add-zero}
use mathlib.Core.Path.{subst}
use os_network_concurrency_s.Common.{
  ℕ, zero, suc, ◌+◌, ◌-◌, ◌≡◌, ◌≤◌, ◌<◌, arith, ltb, if◌then◌else◌, sym,
}
use os_network_concurrency_s.Kernel.Paging.State.{Resident, Proc}
use os_network_concurrency_s.Kernel.Paging.Swap.{find_victim, victim_inx}

-- `r` is the first of the oldest of the first `m` pages.
pub record Oldest (pages : ℕ → Resident) (m r : ℕ) : Type 0 where
  pub within : r < m
  pub least : (j : ℕ) → j < m → (pages r).seq ≤ (pages j).seq
  pub first : (j : ℕ) → j < r → (pages r).seq < (pages j).seq

Oldest-step :
    (pages : ℕ → Resident) (i v : ℕ)
    → Oldest pages i v
    → Oldest pages (suc i) (if ltb (pages i).seq (pages v).seq then i else v)
Oldest-step pages i v o = record {
  within = ground (arith, o.within);
  least = λ j h. ground (arith, o.least j);
  first = λ j h. ground (arith, o.least j, o.first j);
}

find_victim_lem :
    (n i v : ℕ) (pages : ℕ → Resident)
    → Oldest pages i v
    → Oldest pages (i + n) (find_victim n i v pages)
unfolding find_victim
find_victim_lem zero i v pages o = rw add-zero o
find_victim_lem (suc n) i v pages o =
    let e : i + suc n ≡ suc i + n = omega arith in
    let e' : i + 1 ≡ suc i = omega arith in
    rw (e, e')
      (find_victim_lem n (suc i) (if ltb (pages i).seq (pages v).seq then i else v) pages
        (Oldest-step pages i v o))

-- Of a resident set that is not empty the victim is a page with the least sequence number, the
-- first of them in the array.
pub victim_inx-Oldest :
    (p : Proc) → 0 < p.num_resident → Oldest p.resident_pages p.num_resident (victim_inx p)
unfolding victim_inx
victim_inx-Oldest p h =
    let e : p.num_resident ≡ 1 + (p.num_resident - 1) = omega arith in
    subst (λ m. Oldest p.resident_pages m (victim_inx p)) (sym e)
      (find_victim_lem (p.num_resident - 1) 1 0 p.resident_pages start)
  where
    start : Oldest p.resident_pages 1 0
    start = record {
      within = omega arith;
      least = λ j lt. ground arith;
      first = λ j lt. absurd (omega arith);
    }
