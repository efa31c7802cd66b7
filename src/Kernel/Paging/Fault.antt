-- ===== src/Kernel/Paging/Fault.antt =====
-- kernel/vm.c: handle_pgfault, the major page fault.
pub mod Sound
use os_network_concurrency_s.Common.{
  update, ℕ, zero, suc, ◌+◌, ◌-◌, ◌*◌, ◌/◌, ◌%◌, ◌^◌, Bool, true, false, Option, none, some, ltb,
  leb, ◌==◌, if◌then◌else◌, ◌&&◌, ◌||◌, not, min, add_uint64,
}
use os_network_concurrency_s.Common.Outcome.{Outcome, returns, exits, panics, faults, ◌>>=◌, ◌>>◌}
use os_network_concurrency_s.Kernel.Riscv.{pg_size, pg_round_down, max_va}
use os_network_concurrency_s.Kernel.Kalloc.{Kmem, kalloc, kfree}
use os_network_concurrency_s.Kernel.PageTable.{Status, success, failure, mappages, zero_page}
use os_network_concurrency_s.Kernel.PageTable.Entry.{pte_r, pte_x, pte_w_bit, pte_u_bit}
use os_network_concurrency_s.Kernel.Paging.State.{Swapped, ProgHdr, Proc, Files, World}
use os_network_concurrency_s.Kernel.Paging.Swap.{evict_page, add_to_resident_set}

-- The first of the `n` entries from `i` that holds `va`.
unfoldable pub find_swapped : ℕ → ℕ → ℕ → (ℕ → Swapped) → Option ℕ
find_swapped zero i va pages = none
find_swapped (suc n) i va pages =
    if (pages i).va == va then some i else find_swapped n (i + 1) va pages

-- Entry `i` is overwritten by the last one, and its slot is free again.
abbrev pub without_swapped : ℕ → Proc → Proc
without_swapped i p = record p {
  swapped_pages = update p.swapped_pages i (p.swapped_pages (p.num_swapped_pages - 1));
  num_swapped_pages = p.num_swapped_pages - 1;
  swap_slots = update p.swap_slots (p.swapped_pages i).slot 0;
}

-- With the index that the loop found.
pub take_found : Option ℕ → Proc → Option ℕ × Proc
take_found none p = (none, p)
take_found (some i) p = (some (p.swapped_pages i).slot, without_swapped i p)

-- The swapped entry of `va`, if there is one, is taken out.
pub take_swapped : ℕ → Proc → Option ℕ × Proc
take_swapped va p = take_found (find_swapped p.num_swapped_pages 0 va p.swapped_pages) p

-- kernel/exec.c: `flags2perm`, with ELF's EXEC 1, WRITE 2 and READ 4
pub flags2perm : ℕ → ℕ
flags2perm flags =
    (if flags % 2 == 1 then pte_x else 0)
    + (if flags / 2 % 2 == 1 then pte_w_bit else 0)
    + (if flags / 4 % 2 == 1 then pte_r else 0)

-- What a fault on a page of the executable reads: where, how much, and how it is mapped.
pub record Segment : Type 0 where
  pub file_offset : ℕ
  pub file_size_to_read : ℕ
  pub perm_flags : ℕ

-- `va` lies in a loaded segment.
abbrev pub in_segment : ProgHdr → ℕ → Bool
in_segment ph va = ph.type == 1 && (leb ph.vaddr va && ltb va (add_uint64 ph.vaddr ph.memsz))

-- The offset and the size are of type uint.
unfoldable pub segment_of : ProgHdr → ℕ → Segment
segment_of ph va = record {
  file_offset = (ph.off + (va - ph.vaddr)) % 2 ^ 32;
  file_size_to_read =
      (let n =
          (if ltb (va - ph.vaddr) ph.filesz then ph.filesz - (va - ph.vaddr) else 0) % 2 ^ 32 in
        if ltb pg_size n then pg_size else n);
  perm_flags = flags2perm ph.flags + pte_u_bit;
}

-- The loop over the program headers from `i`, with the rounds left.
pub find_segment : ℕ → ℕ → ℕ → (ℕ → ProgHdr) → Option Segment
find_segment zero i va phdrs = none
find_segment (suc n) i va phdrs =
    if in_segment (phdrs i) va
    then some (segment_of (phdrs i) va)
    else find_segment n (i + 1) va phdrs

-- After `kfree(mem)`: `return -1`.
pub fail_freed : {D : Type 0} → Option Kmem → World D → Outcome (World D) Status
fail_freed none w = panics
fail_freed (some k) w = returns failure (record w { kmem = k })

-- `kfree(mem); return -1`
pub free_and_fail : {D : Type 0} → ℕ → ℕ → World D → Outcome (World D) Status
free_and_fail kernel_end mem w = fail_freed (kfree kernel_end mem w.kmem) w

-- After `mappages`: `kfree(mem); return -1` if it failed.
pub check_mapped :
    {D : Type 0} → ℕ → ℕ → Option (Status × Kmem) → World D → Outcome (World D) Status
check_mapped kernel_end mem none w = panics
check_mapped kernel_end mem (some (success, k)) w = returns success (record w { kmem = k })
check_mapped kernel_end mem (some (failure, k)) w =
    free_and_fail kernel_end mem (record w { kmem = k })

-- `mappages(pagetable, va, PGSIZE, mem, perm)`, and its check.
pub map_or_free : {D : Type 0} → ℕ → ℕ → ℕ → ℕ → World D → Outcome (World D) Status
map_or_free kernel_end va mem perm w =
    check_mapped kernel_end mem (mappages w.proc.pagetable va pg_size mem perm w.kmem) w

-- After the `readi` of a swapped page; a short read panics.
pub check_swapped_read : {D : Type 0} → ℕ → ℕ → ℕ → Option ℕ → World D → Outcome (World D) Status
check_swapped_read kernel_end va mem none w = panics
check_swapped_read kernel_end va mem (some m) w =
    if m == pg_size then map_or_free kernel_end va mem (pte_u_bit + pte_r) w else panics

-- After the `readi` of a page of the executable; a short read fails.
pub check_segment_read :
    {D : Type 0} → ℕ → ℕ → ℕ → Segment → Option ℕ → World D → Outcome (World D) Status
check_segment_read kernel_end va mem seg none w = free_and_fail kernel_end mem w
check_segment_read kernel_end va mem seg (some m) w =
    if m == seg.file_size_to_read
    then map_or_free kernel_end va mem seg.perm_flags w
    else free_and_fail kernel_end mem w

-- Outside the executable: the heap, or the page below the stack pointer.
pub load_anonymous : {D : Type 0} → ℕ → ℕ → ℕ → World D → Outcome (World D) Status
load_anonymous kernel_end va mem w =
    if ltb va w.proc.sz
    then map_or_free kernel_end va mem (pte_u_bit + pte_r) w
    else if leb ((w.proc.sp + 2 ^ 64 - pg_size) % 2 ^ 64) va && ltb va max_va
    then map_or_free kernel_end va mem (pte_u_bit + pte_r) w
    else free_and_fail kernel_end mem w

-- `add_to_resident_set(...); return 0` after a mapping that succeeded.
pub finish : {D : Type 0} → ℕ → Bool → Status → World D → Outcome (World D) Status
finish va is_swapped failure w = returns failure w
finish va is_swapped success w = (do add_to_resident_set va is_swapped; returns success) w

-- The second `kalloc`, after an eviction.
pub kalloc_again : {D : Type 0} → World D → Outcome (World D) ℕ
kalloc_again w =
    let (mem, k) = kalloc w.kmem in if mem == 0 then panics else returns mem (record w { kmem = k })

module _ (files : Files) where
  -- The page for the fault, evicting one if there is no free page. The second try must succeed.
  pub fault_page : ℕ → World files.Disk → Outcome (World files.Disk) ℕ
  fault_page kernel_end w =
      let (mem, k) = kalloc w.kmem in
      let w' = record w { kmem = k } in
      if mem == 0 then (evict_page files kernel_end >> kalloc_again) w' else returns mem w'

  -- CASE 1: the page is read back from its slot. There is no swap file: a null pointer.
  pub load_swapped : Option ℕ → ℕ → ℕ → ℕ → ℕ → World files.Disk → Outcome (World files.Disk) Status
  load_swapped none kernel_end va mem slot w = faults
  load_swapped (some ip) kernel_end va mem slot w =
      let (n, memory) = files.readi ip mem (slot * pg_size) pg_size w.kmem.mem w.disk in
      check_swapped_read kernel_end va mem n
        (record w { kmem = record { freelist = w.kmem.freelist; mem = memory } })

  -- A page of the executable, of inode `ip`, or not.
  pub load_segment :
      Option Segment → ℕ → ℕ → ℕ → ℕ → World files.Disk → Outcome (World files.Disk) Status
  load_segment none ip kernel_end va mem w = load_anonymous kernel_end va mem w
  load_segment (some seg) ip kernel_end va mem w =
      let (n, memory) =
        files.readi ip mem seg.file_offset seg.file_size_to_read w.kmem.mem w.disk in
      check_segment_read kernel_end va mem seg n
        (record w { kmem = record { freelist = w.kmem.freelist; mem = memory } })

  -- The program headers are read first, whatever the address; there is no executable: a null pointer.
  pub load_headers : Option ℕ → ℕ → ℕ → ℕ → World files.Disk → Outcome (World files.Disk) Status
  load_headers none kernel_end va mem w = faults
  load_headers (some ip) kernel_end va mem w =
      load_segment (find_segment (files.phnum ip w.disk) 0 va (files.phdrs ip w.disk)) ip kernel_end
        va mem w

  -- CASE 2: a page of the executable, of the heap, or of the stack. An address that is in none of
  -- them is refused, and `mem` is kept.
  pub load_unswapped : ℕ → ℕ → ℕ → World files.Disk → Outcome (World files.Disk) Status
  load_unswapped kernel_end va mem w =
      let p = w.proc in
      if not (ltb va p.heap_start) && not (leb p.heap_start va && ltb va p.sz)
      then returns failure w
      else load_headers p.exec_ip kernel_end va mem w

  -- With the slot of the page, if it was swapped out.
  pub load_page : Option ℕ → ℕ → ℕ → ℕ → World files.Disk → Outcome (World files.Disk) Status
  load_page (some slot) kernel_end va mem w =
      (load_swapped w.proc.swap_file kernel_end va mem slot >>= finish va true) w
  load_page none kernel_end va mem w = (load_unswapped kernel_end va mem >>= finish va false) w

  -- From the new page on.
  pub serve_fault : ℕ → ℕ → ℕ → World files.Disk → Outcome (World files.Disk) Status
  serve_fault kernel_end va mem w =
      let (slot, p) = take_swapped va w.proc in
      load_page slot kernel_end va mem (record w { proc = p; kmem = zero_page mem w.kmem })

  pub handle_pgfault : ℕ → ℕ → World files.Disk → Outcome (World files.Disk) Status
  handle_pgfault kernel_end va w =
      if leb max_va va
      then returns failure w
      else (fault_page kernel_end >>= serve_fault kernel_end (pg_round_down va)) w
