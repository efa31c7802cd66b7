-- ===== src/Lib.antt =====
-- A model of the core of three programs: a lazily allocating xv6, its kernel above all, a simulation of a
-- bakery with threads and semaphores, and a packet sniffer for the terminal.
--
-- Common: the names that the parts share, lists and arrays over the native numbers, unsigned words,
-- and the results of kernel code that can end the process, panic or run over an array (Outcome).
--
-- Kernel (xv6-Lazy-Allocation/kernel):
-- - Riscv, Memory: constants of riscv.h and memlayout.h; memory as a function of the address, one
--   64-bit word at each address that the kernel uses as one, and memset of a page (string.c).
-- - Kalloc: kalloc.c, `kmem` with the free list threaded through memory. Chain relates it to a list
--   of pages, Refine and Boot hold the theorems. The loop of `freerange` runs on fuel, one round
--   for each page below PHYSTOP, which Boot shows to be enough.
-- - PageTable: the walks of vm.c over three levels of tables in memory, with the words of the
--   entries in Entry.
-- - Paging: demand paging of vm.c. State has the fields of `struct proc` that it uses, Swap has
--   swap_allocated_slot, swap_write_page, add_to_resident_set and evict_page, Fault has
--   handle_pgfault. The inode layer (readi, writei) is the parameter `Files`, where a writei from
--   any address but 0 returns; a null pointer is a fault. It calls Kalloc and
--   PageTable. Loops over arrays have as many rounds as the array has used elements.
-- - Spinlock: spinlock.c, CPUs that acquire and release one lock, in any interleaving.
-- - Console: the input buffer of console.c. Window reads it as lists, Lines is about typing, Reads
--   about reading; a call runs up to its next sleep, as for pipes.
-- - Strings: string.c over a memory of bytes. `strlen_from` runs on fuel, which is
--   enough if it is beyond the length.
-- - Pipe: pipe.c. A call runs from the moment it holds the lock to the moment it sleeps or
--   returns; copyin and copyout are the parameters `fetch` and `deliver`.
-- - File: file.c's table of open files and its reference counts.
-- - Bio: bio.c, with the list of recent use as a list of buffer numbers where bget walks it. Find has
--   the two loops of bget, Unique what it returns; Recent has brelse on the pointers `next` and `prev`.
-- - Procs: proc.c's table of processes, with CPUs that go on in any order (Steps). Tree has the
--   invariant on parents and states, Calm, Forks and Exits preserve it, Cpus is about what the CPUs
--   run. Loops over the table go over all of its 64 places.
-- - Printf: printint of printf.c, whose loop has as many rounds as its buffer has room; Digits shows
--   what is in the buffer.
-- - Fs: fs.c. Blocks has the free map, the blocks of an inode and itrunc; Content has readi and
--   writei, with the caller's buffer as a function of the byte's index. The loops of readi and writei
--   have as many rounds as bytes to move, which is enough since each round moves one at least.
--   Inodes is the table of inodes in memory, Paths the elements of a path, where as many rounds as
--   characters are enough. Dirs has dirlookup and dirlink over readi and writei: Lookup is about the
--   search, Get about dirlookup with its reference, Slots and Link about the new entry. Their
--   loops have a round for each entry, and one more.
-- - Log: log.c over a cache and a disk, with the number of block writes that reach the disk before
--   the machine stops. Ops has the functions, Copies the two copying loops, Crash the crashes.
--
-- User (xv6-Lazy-Allocation/user): Grep is the matcher of grep.c, on strings as lists; Language
-- describes what a pattern means.
--
-- Bakery (Concurrent-Bakery-Sim/main.c): Queue is the circular queue; Shop the threads `customer`
-- and `Chef` as steps between accesses to shared state, with every interleaving reachable.
--
-- Sniffer (Terminal-Packet-Sniffer): Handler is `pckt_handler` of func.c up to its printing, with
-- the header layouts of the system's headers as the parameter `Headers`; Session runs it over a
-- sequence of packets, as pcap_loop does.
--
-- Not modelled: sleep locks, the system calls on files, traps, devices, boot code,
-- the user programs but for grep's matcher, tests, and all printing but
-- for printint. Outside Procs, sleeping is
-- only the point where a call stops.
pub mod Common
pub mod Kernel
pub mod Bakery
pub mod User
pub mod Sniffer
