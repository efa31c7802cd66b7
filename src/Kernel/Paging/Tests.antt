-- ===== src/Kernel/Paging/Tests.antt =====
-- kernel/vm.c: the paging theorems at a process with one dirty resident page.
use os_network_concurrency_s.Common.{
  ℕ, ◌+◌, ◌-◌, ◌≡◌, ◌≢◌, arith, ltb, leb, ◌==◌, if◌then◌else◌, none, some, true, false, refl, ◌&&◌,
}
use os_network_concurrency_s.Kernel.Paging.State.{ProgHdr, Proc, Files, World}
use os_network_concurrency_s.Kernel.Paging.Swap.{find_victim}

word_file-reads :
    {A : Type 0} (src : ℕ) (a : A) → src ≢ 0 → (if src == 0 then none else some a) ≡ some a
word_file-reads src a nz = ground (arith, nz)

-- One file, as words by offset; every read and every write from an address but 0 succeeds.
abbrev word_file : Files
word_file = record {
  Disk = ℕ → ℕ;
  writei = λ ip src off n m d.
      if src == 0
      then none
      else some (some n, λ a. if leb off a && ltb a (off + n) then m (src + (a - off)) else d a);
  writei_reads = λ ip src off n m d nz. (
    (some n, λ a. if leb off a && ltb a (off + n) then m (src + (a - off)) else d a),
    word_file-reads src _ nz,
  );
  readi = λ ip dst off n m d.
      (some n, λ a. if leb dst a && ltb a (dst + n) then d (off + (a - dst)) else m a);
  phdrs = λ ip d i. record { type = 0; flags = 0; off = 0; vaddr = 0; filesz = 0; memsz = 0 };
  phnum = λ ip d. 0;
}

abbrev one_dirty_page : Proc
one_dirty_page = record {
  pagetable = 0x80005000;
  heap_start = 0x2000;
  sz = 0x9000;
  sp = 0x8000;
  exec_ip = some 2;
  swap_file = some 7;
  swap_slots = λ _. 0;
  resident_pages = λ _. record { va = 0x3000; seq = 1; dirty = true };
  num_resident = 1;
  next_fifo_seq = 1;
  swapped_pages = λ _. record { va = 0; slot = 0 };
  num_swapped_pages = 0;
}

-- Every page table entry leads to the page at 0x80005000, for the user.
abbrev user_pte : ℕ
user_pte = 0x20001411

abbrev one_free_page : World (ℕ → ℕ)
one_free_page = record {
  proc = one_dirty_page;
  kmem = record { freelist = 0x80007000; mem = λ _. user_pte };
  disk = λ _. 0;
}

abbrev data_segment : ProgHdr
data_segment = record {
  type = 1;
  flags = 6;
  off = 0x1000;
  vaddr = 0x1000;
  filesz = 0x800;
  memsz = 0x900;
}

-- The oldest of three pages is the one in the middle.
victim_example :
    find_victim 2 1 0
      (λ i. record { va = i; seq = if i == 0 then 5 else if i == 1 then 2 else 9; dirty = false })
    ≡ 1
unfolding find_victim
victim_example = refl
