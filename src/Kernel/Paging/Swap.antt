-- ===== src/Kernel/Paging/Swap.antt =====
-- kernel/vm.c: swap_allocated_slot, swap_write_page, add_to_resident_set, evict_page.
pub mod Victim
pub mod Slots
pub mod Evict
use os_network_concurrency_s.Common.{
  update, ℕ, zero, suc, ◌≡◌, ◌<◌, arith, ◌+◌, ◌-◌, ◌*◌, ◌^◌, Bool, true, false, Option, none, some,
  ltb, leb, ◌==◌, if◌then◌else◌,
}
use os_network_concurrency_s.Common.Outcome.{Outcome, returns, exits, panics, faults, ◌>>=◌, ◌>>◌}
use os_network_concurrency_s.Kernel.Riscv.{pg_size}
use os_network_concurrency_s.Kernel.Memory.{Memory}
use os_network_concurrency_s.Kernel.Kalloc.{Kmem}
use os_network_concurrency_s.Kernel.PageTable.{Status, success, failure, walkaddr, uvmunmap}
use os_network_concurrency_s.Kernel.Paging.State.{
  Resident, Swapped, Proc, Files, World, max_resident_pages, max_swap_pages,
}

-- The loop of `swap_allocated_slot` from `i`, with the rounds left.
unfoldable pub find_slot : ℕ → ℕ → (ℕ → ℕ) → Option ℕ
find_slot zero i slots = none
find_slot (suc n) i slots = if slots i == 0 then some i else find_slot n (i + 1) slots

-- The chosen slot is marked as used.
pub swap_allocated_slot : Proc → Option ℕ × Proc
swap_allocated_slot p = elim (find_slot max_swap_pages 0 p.swap_slots) [
  | none ↦ (none, p)
  | some i ↦ (some i, record p { swap_slots = update p.swap_slots i 1 })
]

-- The loop over the resident set, from `i` with the rounds left and the best index so far.
unfoldable pub find_victim : ℕ → ℕ → ℕ → (ℕ → Resident) → ℕ
find_victim zero i victim pages = victim
find_victim (suc n) i victim pages =
    find_victim n (i + 1) (if ltb (pages i).seq (pages victim).seq then i else victim) pages

unfoldable pub victim_inx : Proc → ℕ
victim_inx p = find_victim (p.num_resident - 1) 1 0 p.resident_pages

-- `p->resident_pages[i] = p->resident_pages[p->num_resident - 1]; p->num_resident--`
abbrev pub without_resident : ℕ → Proc → Proc
without_resident i p = record p {
  resident_pages = update p.resident_pages i (p.resident_pages (p.num_resident - 1));
  num_resident = p.num_resident - 1;
}

-- Of an empty set the source reads the element -1.
pub remove_resident : {D : Type 0} → ℕ → World D → Outcome (World D) Status
remove_resident i w =
    if w.proc.num_resident == 0
    then faults
    else returns success (record w { proc = without_resident i w.proc })

-- `p->swapped_pages[p->num_swappped_pages++] = {va, slot}`
abbrev pub with_swapped : ℕ → ℕ → Proc → Proc
with_swapped va slot p = record p {
  swapped_pages = update p.swapped_pages p.num_swapped_pages (record { va = va; slot = slot });
  num_swapped_pages = p.num_swapped_pages + 1;
}

-- The array has MAX_SWAP_PAGES elements.
pub push_swapped : {D : Type 0} → ℕ → ℕ → World D → Outcome (World D) (Unit {0})
push_swapped va slot w =
    if leb max_swap_pages w.proc.num_swapped_pages
    then faults
    else returns tt (record w { proc = with_swapped va slot w.proc })

abbrev pub with_resident : ℕ → Bool → Proc → Proc
with_resident va swapped p = record p {
  resident_pages =
      update p.resident_pages p.num_resident
        (record { va = va; seq = p.next_fifo_seq + 1; dirty = swapped });
  next_fifo_seq = p.next_fifo_seq + 1;
  num_resident = p.num_resident + 1;
}

-- A full set ends the process; `++next_fifo_seq` is an int.
pub add_to_resident_set : {D : Type 0} → ℕ → Bool → World D → Outcome (World D) (Unit {0})
add_to_resident_set va swapped w =
    if leb max_resident_pages w.proc.num_resident
    then exits w
    else if leb (2 ^ 31) (w.proc.next_fifo_seq + 1)
    then faults
    else returns tt (record w { proc = with_resident va swapped w.proc })

pub add_to_resident_set-full :
    {D : Type 0} (va : ℕ) (swapped : Bool) (w : World D)
    → leb max_resident_pages w.proc.num_resident ≡ true
    → add_to_resident_set va swapped w ≡ exits w
unfolding add_to_resident_set
add_to_resident_set-full va swapped w h = rw h

pub add_to_resident_set-more :
    {D : Type 0} (va : ℕ) (swapped : Bool) (w : World D)
    → leb max_resident_pages w.proc.num_resident ≡ false
    → w.proc.next_fifo_seq + 1 < 2 ^ 31
    → add_to_resident_set va swapped w
      ≡ returns tt (record w { proc = with_resident va swapped w.proc })
unfolding add_to_resident_set
add_to_resident_set-more va swapped w h lt = ground (arith, h)

-- What follows `swap_write_page`.
pub record_swapped : {D : Type 0} → ℕ → ℕ → Status → World D → Outcome (World D) (Unit {0})
record_swapped va slot success w = push_swapped va slot w
record_swapped va slot failure w = exits w

-- The same, where the write may have read through a null pointer.
pub after_write : {D : Type 0} → ℕ → ℕ → Option (Status × World D) → Outcome (World D) (Unit {0})
after_write va slot none = faults
after_write va slot (some (st, w)) = record_swapped va slot st w

-- Whether `writei` wrote the whole page.
pub page_written : Option ℕ → Status
page_written none = failure
page_written (some m) = if m == pg_size then success else failure

-- `uvmunmap(p->pagetable, va, 1, 1)`
pub unmap_and_free : {D : Type 0} → ℕ → ℕ → World D → Outcome (World D) (Unit {0})
unmap_and_free kernel_end va w = elim (uvmunmap kernel_end w.proc.pagetable va 1 true w.kmem) [
  | none ↦ panics
  | some k ↦ returns tt (record w { kmem = k })
]

module _ (files : Files) where
  -- `if(writei(...) == PGSIZE) 0 else -1`, or -1 if there is no swap file; `none` is a read through a
  -- null pointer.
  pub swap_write_page : ℕ → ℕ → World files.Disk → Option (Status × World files.Disk)
  swap_write_page slot pa w = elim w.proc.swap_file [
    | none ↦ some (failure, w)
    | some ip ↦ elim (files.writei ip pa (slot * pg_size) pg_size w.kmem.mem w.disk) [
      | none ↦ none
      | some r ↦ some (page_written r.0, record w { disk = r.1 })
    ]
  ]

  -- With the slot that was found: without one, or if the write fails, the process is killed.
  pub swap_into : ℕ → Option ℕ → World files.Disk → Outcome (World files.Disk) (Unit {0})
  swap_into va none w = exits w
  swap_into va (some slot) w =
      after_write va slot (swap_write_page slot (walkaddr w.proc.pagetable va w.kmem) w)

  -- The branch of `evict_page` for a dirty page.
  pub swap_out : ℕ → World files.Disk → Outcome (World files.Disk) (Unit {0})
  swap_out va w =
      let (slot, p) = swap_allocated_slot w.proc in swap_into va slot (record w { proc = p })

  -- A clean page is discarded. The answer is always 0, since `kexit` does not return.
  pub evict_page : ℕ → World files.Disk → Outcome (World files.Disk) Status
  evict_page kernel_end w =
      let i = victim_inx w.proc in
      let r = w.proc.resident_pages i in
      (do
        if r.dirty then swap_out r.va else returns tt
        unmap_and_free kernel_end r.va
        remove_resident i)
        w
