-- ===== src/Kernel/Paging/Swap/Slots.antt =====
-- kernel/vm.c: which slots of the swap file are in use, and the invariants of the paging arrays.
use os_network_concurrency_s.Common.{
  ℕ, zero, suc, ◌+◌, ◌-◌, ◌≡◌, ◌≢◌, ◌≤◌, ◌<◌, arith, none, some, Bool, update, sum_below,
  sum_below-update, sum_below-le,
}
use os_network_concurrency_s.Kernel.Paging.State.{Resident, Swapped, Proc, max_swap_pages}
use os_network_concurrency_s.Kernel.Paging.Swap.{find_slot, with_swapped, with_resident}

-- The used slots are those of the swapped pages, each of exactly one page.
pub record SlotsOk (slots : ℕ → ℕ) (swapped : ℕ → Swapped) (n : ℕ) : Type 0 where
  pub counted : sum_below max_swap_pages slots ≡ n
  pub binary : (i : ℕ) → i < max_swap_pages → slots i ≤ 1
  pub in_range : (i : ℕ) → i < n → (swapped i).slot < max_swap_pages
  pub in_use : (i : ℕ) → i < n → slots (swapped i).slot ≡ 1
  pub unshared : (i j : ℕ) → i < n → j < n → (swapped i).slot ≡ (swapped j).slot → i ≡ j

-- The resident pages have distinct addresses and distinct sequence numbers, given out in order.
pub record ResidentOk (pages : ℕ → Resident) (n next : ℕ) : Type 0 where
  pub distinct : (i j : ℕ) → i < n → j < n → (pages i).va ≡ (pages j).va → i ≡ j
  pub issued : (i : ℕ) → i < n → (pages i).seq ≤ next
  pub ordered : (i j : ℕ) → i < n → j < n → (pages i).seq ≡ (pages j).seq → i ≡ j

-- No page is swapped out twice, and no page is resident and swapped out.
pub record Apart (swapped : ℕ → Swapped) (ns : ℕ) (pages : ℕ → Resident) (nr : ℕ) : Type 0 where
  pub once : (i j : ℕ) → i < ns → j < ns → (swapped i).va ≡ (swapped j).va → i ≡ j
  pub apart : (i j : ℕ) → i < ns → j < nr → (swapped i).va ≢ (pages j).va

pub record IsSound (p : Proc) : Type 0 where
  pub slots : SlotsOk p.swap_slots p.swapped_pages p.num_swapped_pages
  pub resident : ResidentOk p.resident_pages p.num_resident p.next_fifo_seq
  pub places : Apart p.swapped_pages p.num_swapped_pages p.resident_pages p.num_resident

-- The slot found is free, and it is the first one that is.
pub find_slot-some :
    (n i : ℕ) (slots : ℕ → ℕ) (s : ℕ)
    → find_slot n i slots ≡ some s
    → (i ≤ s) × (s < i + n) × (slots s ≡ 0)
unfolding find_slot
find_slot-some zero i slots s e = cc
find_slot-some (suc n) i slots s e = ground (arith, find_slot-some n (i + 1) slots s)

-- No slot is found only if none is free.
pub find_slot-none :
    (n i : ℕ) (slots : ℕ → ℕ) (j : ℕ) → find_slot n i slots ≡ none → i ≤ j → j < i + n → slots j ≢ 0
unfolding find_slot
find_slot-none zero i slots j e le lt = absurd (omega arith)
find_slot-none (suc n) i slots j e le lt = ground (arith, find_slot-none n (i + 1) slots j)

-- A free slot leaves room in `swapped_pages`.
pub SlotsOk-room :
    {slots : ℕ → ℕ} {swapped : ℕ → Swapped} {n : ℕ}
    → SlotsOk slots swapped n
    → (s : ℕ) → s < max_swap_pages
    → slots s ≡ 0
    → n < max_swap_pages
SlotsOk-room {slots} ok s lt free = omega (
  arith,
  ok.counted,
  sum_below-update max_swap_pages slots s 1 lt,
  sum_below-le max_swap_pages (update slots s 1) (λ i h. ground (arith, ok.binary i)),
)

-- Taking a free slot for a page keeps the slots right.
pub SlotsOk-push :
    (p : Proc) (va s : ℕ)
    → SlotsOk p.swap_slots p.swapped_pages p.num_swapped_pages
    → s < max_swap_pages
    → p.swap_slots s ≡ 0
    → (let q = with_swapped va s (record p { swap_slots = update p.swap_slots s 1 }) in
        SlotsOk q.swap_slots q.swapped_pages q.num_swapped_pages)
SlotsOk-push p va s ok lt free = record {
  counted = omega (arith, ok.counted, sum_below-update max_swap_pages p.swap_slots s 1 lt);
  binary = λ i h. ground (arith, ok.binary i);
  in_range = λ i h. ground (arith, ok.in_range i);
  in_use = λ i h. ground (arith, ok.in_use i);
  unshared = λ i j hi hj e. ground (arith, ok.unshared i j, ok.in_use i, ok.in_use j);
}

-- Giving back the slot of entry `k`, which the last entry then overwrites.
pub SlotsOk-take :
    (p : Proc) (k : ℕ)
    → SlotsOk p.swap_slots p.swapped_pages p.num_swapped_pages
    → k < p.num_swapped_pages
    → SlotsOk
        (update p.swap_slots (p.swapped_pages k).slot 0)
        (update p.swapped_pages k (p.swapped_pages (p.num_swapped_pages - 1)))
        (p.num_swapped_pages - 1)
SlotsOk-take p k ok lt = record {
  counted = omega (
    arith,
    ok.counted,
    ok.in_use k lt,
    sum_below-update max_swap_pages p.swap_slots (p.swapped_pages k).slot 0 (ok.in_range k lt),
  );
  binary = λ i h. ground (arith, ok.binary i);
  in_range = λ i h. ground (arith, ok.in_range i, ok.in_range (p.num_swapped_pages - 1));
  in_use = λ i h. ground (
    arith,
    ok.in_use i,
    ok.in_use (p.num_swapped_pages - 1),
    ok.unshared i k,
    ok.unshared (p.num_swapped_pages - 1) k,
  );
  unshared = λ i j hi hj e. ground (
    arith,
    ok.unshared i j,
    ok.unshared i (p.num_swapped_pages - 1),
    ok.unshared (p.num_swapped_pages - 1) j,
  );
}

pub ResidentOk-remove :
    (pages : ℕ → Resident) (n next k : ℕ)
    → ResidentOk pages n next
    → k < n
    → ResidentOk (update pages k (pages (n - 1))) (n - 1) next
ResidentOk-remove pages n next k ok lt = record {
  distinct =
      λ i j hi hj e. ground (arith, ok.distinct i j, ok.distinct i (n - 1), ok.distinct (n - 1) j);
  issued = λ i h. ground (arith, ok.issued i, ok.issued (n - 1));
  ordered =
      λ i j hi hj e. ground (arith, ok.ordered i j, ok.ordered i (n - 1), ok.ordered (n - 1) j);
}

-- A new page gets the next sequence number.
pub ResidentOk-add :
    (p : Proc) (va : ℕ) (swapped : Bool)
    → ResidentOk p.resident_pages p.num_resident p.next_fifo_seq
    → ((j : ℕ) → j < p.num_resident → (p.resident_pages j).va ≢ va)
    → (let q = with_resident va swapped p in
        ResidentOk q.resident_pages q.num_resident q.next_fifo_seq)
ResidentOk-add p va swapped ok new = record {
  distinct = λ i j hi hj e. ground (arith, ok.distinct i j, new i, new j);
  issued = λ i h. ground (arith, ok.issued i);
  ordered = λ i j hi hj e. ground (arith, ok.ordered i j, ok.issued i, ok.issued j);
}
