-- ===== src/Kernel/Paging/Fault/Sound.antt =====
-- kernel/vm.c: a page fault keeps the paging fields sound, and records the page it brings in.
use os_network_concurrency_s.Common.{ℕ, ◌+◌, ◌-◌, ◌^◌, ◌≡◌, ◌≢◌, ◌<◌, some}
use os_network_concurrency_s.Common.Outcome.{Outcome, Ensures}
use os_network_concurrency_s.Kernel.PageTable.{Status, success, failure}
use os_network_concurrency_s.Kernel.Paging.State.{Proc, World}
use os_network_concurrency_s.Kernel.Paging.Swap.Slots.{IsSound}

-- A sound process that can take in the page at `va`: it is not resident, the sequence numbers have
-- room, and the swap file is open.
pub record Ready (va : ℕ) (p : Proc) : Type 0 where
  pub sound : IsSound p
  pub absent : (j : ℕ) → j < p.num_resident → (p.resident_pages j).va ≢ va
  pub room : p.next_fifo_seq + 1 < 2 ^ 31
  pub file : ℕ
  pub opened : p.swap_file ≡ some file
  pub exec : ℕ
  pub executed : p.exec_ip ≡ some exec

-- The page is not in the swap file either.
record Alone (va : ℕ) (p : Proc) : Type 0 where
  ready : Ready va p
  unswapped : (i : ℕ) → i < p.num_swapped_pages → (p.swapped_pages i).va ≢ va

-- The last resident page is the one at `va`, with the newest sequence number.
pub record Loaded (va : ℕ) (q : Proc) : Type 0 where
  pub nonempty : 0 < q.num_resident
  pub loaded : (q.resident_pages (q.num_resident - 1)).va ≡ va
  pub newest : (q.resident_pages (q.num_resident - 1)).seq ≡ q.next_fifo_seq

module _ {D : Type 0} (e : ℕ) where
  -- A run that leaves the process alone.
  abbrev Keeps : World D → Outcome (World D) Status → Type 0
  Keeps w o = Ensures (λ _ w'. w'.proc ≡ w.proc) (λ _. Unit {0}) o

-- What a page fault comes to: the invariant, and on success the page is the newest resident one.
abbrev pub Served : ℕ → Status → Proc → Type 0
Served va success q = IsSound q × Loaded va q
Served va failure q = IsSound q
