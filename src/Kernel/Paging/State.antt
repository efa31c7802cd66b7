-- ===== src/Kernel/Paging/State.antt =====
-- kernel/proc.h: the fields of `struct proc` that paging uses, and what they stand beside.
use os_network_concurrency_s.Common.{ℕ, ◌≡◌, ◌≢◌, Option, some, Bool}
use os_network_concurrency_s.Kernel.Memory.{Memory}
use os_network_concurrency_s.Kernel.Kalloc.{Kmem}

abbrev pub max_resident_pages : ℕ
max_resident_pages = 35000

abbrev pub max_swap_pages : ℕ
max_swap_pages = 60

-- `struct resident_page`
pub record Resident : Type 0 where
  pub va : ℕ
  pub seq : ℕ
  pub dirty : Bool

-- `struct swapped_page`
pub record Swapped : Type 0 where
  pub va : ℕ
  pub slot : ℕ

-- `struct proghdr`
pub record ProgHdr : Type 0 where
  pub type : ℕ
  pub flags : ℕ
  pub off : ℕ
  pub vaddr : ℕ
  pub filesz : ℕ
  pub memsz : ℕ

-- `swap_file` and `exec_ip` are the numbers of their inodes, `none` for a null pointer; `sp` is `trapframe->sp`.
pub record Proc : Type 0 where
  pub pagetable : ℕ
  pub heap_start : ℕ
  pub sz : ℕ
  pub sp : ℕ
  pub exec_ip : Option ℕ
  pub swap_file : Option ℕ
  pub swap_slots : ℕ → ℕ
  pub resident_pages : ℕ → Resident
  pub num_resident : ℕ
  pub next_fifo_seq : ℕ
  pub swapped_pages : ℕ → Swapped
  pub num_swapped_pages : ℕ

-- What paging calls of the inode layer. A count is `none` for -1; a `writei` that reads its source
-- through a null pointer is `none`.
pub record Files : Type 1 where
  pub Disk : Type 0
  -- `writei(ip, 0, src, off, n)`
  pub writei : ℕ → ℕ → ℕ → ℕ → Memory → Disk → Option (Option ℕ × Disk)
  pub writei_reads :
      (ip src off n : ℕ) (m : Memory) (d : Disk)
      → src ≢ 0
      → (r : Option ℕ × Disk) × (writei ip src off n m d ≡ some r)
  -- `readi(ip, 0, dst, off, n)`
  pub readi : ℕ → ℕ → ℕ → ℕ → Memory → Disk → Option ℕ × Memory
  -- the program headers that the ELF header of the executable lists
  pub phdrs : ℕ → Disk → ℕ → ProgHdr
  pub phnum : ℕ → Disk → ℕ

pub record World (D : Type 0) : Type 0 where
  pub proc : Proc
  pub kmem : Kmem
  pub disk : D
