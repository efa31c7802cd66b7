-- ===== src/Kernel/Paging/Swap/Evict.antt =====
-- kernel/vm.c: `evict_page` takes out the oldest page, never runs over an array, and keeps the
-- paging fields sound.
use os_network_concurrency_s.Common.{update, ℕ, ◌+◌, ◌-◌, ◌≡◌, ◌≢◌, ◌<◌, true, false}
use os_network_concurrency_s.Kernel.PageTable.{walkaddr}
use os_network_concurrency_s.Kernel.Paging.State.{Proc, max_swap_pages, World}
use os_network_concurrency_s.Kernel.Paging.Swap.{with_swapped}
use os_network_concurrency_s.Kernel.Paging.Swap.Slots.{IsSound}

-- After a dirty victim has been written out: one more swapped page, the victim's.
pub record SwappedOut (p : Proc) (va : ℕ) (q : Proc) : Type 0 where
  pub slot : ℕ
  pub free : p.swap_slots slot ≡ 0
  pub low : slot < max_swap_pages
  pub after : q ≡ with_swapped va slot (record p { swap_slots = update p.swap_slots slot 1 })

-- The process after slot `s` has been taken.
abbrev slot_taken : ℕ → Proc → Proc
slot_taken s p = record p { swap_slots = update p.swap_slots s 1 }

-- A world whose process is sound and whose resident set lost its page `i`.
pub record Evicted (p : Proc) (i : ℕ) (q : Proc) : Type 0 where
  pub sound : IsSound q
  pub same_file : q.swap_file ≡ p.swap_file
  pub same_exec : q.exec_ip ≡ p.exec_ip
  pub same_seq : q.next_fifo_seq ≡ p.next_fifo_seq
  pub fewer : q.num_resident + 1 ≡ p.num_resident
  pub kept : q.resident_pages ≡ update p.resident_pages i (p.resident_pages (p.num_resident - 1))
  pub clean :
      (p.resident_pages i).dirty ≡ false
      → (q.swapped_pages ≡ p.swapped_pages)
        × ((q.num_swapped_pages ≡ p.num_swapped_pages) × (q.swap_slots ≡ p.swap_slots))
  pub saved :
      (p.resident_pages i).dirty ≡ true
      → (slot : ℕ) × ((slot < max_swap_pages)
          × ((p.swap_slots slot ≡ 0)
              × ((q.num_swapped_pages ≡ p.num_swapped_pages + 1)
                  × ((q.swapped_pages
                        ≡ update p.swapped_pages p.num_swapped_pages
                            (record { va = (p.resident_pages i).va; slot = slot }))
                      × (q.swap_slots ≡ update p.swap_slots slot 1)))))

-- Each dirty resident page is mapped for the user, at an address that is not 0.
abbrev pub Saveable : {D : Type 0} → World D → Type 0
Saveable w =
    (i : ℕ)
    → i < w.proc.num_resident
    → (w.proc.resident_pages i).dirty ≡ true
    → walkaddr w.proc.pagetable (w.proc.resident_pages i).va w.kmem ≢ 0
