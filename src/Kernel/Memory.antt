-- ===== src/Kernel/Memory.antt =====
-- Physical memory as 64-bit words by address, and `memset` of a whole page of it (kernel/string.c).
use os_network_concurrency_s.Common.{
  ℕ, ◌+◌, ◌*◌, ◌≡◌, ◌≢◌, ◌≤◌, ◌<◌, ◌%◌, ◌⊎◌, inl, inr, ◌&&◌, leb, ltb, ◌==◌, if◌then◌else◌, arith,
}
use os_network_concurrency_s.Kernel.Riscv.{pg_size}

abbrev pub Memory : Type 0
Memory = ℕ → ℕ

abbrev pub store : Memory → ℕ → ℕ → Memory
store m a v b = if a == b then v else m b

-- a word whose eight bytes are all `c`
abbrev pub word_of_byte : ℕ → ℕ
word_of_byte c = c * 0x0101010101010101

-- `memset(pa, c, PGSIZE)`: every word that begins in the page holds the byte `c` eight times.
unfoldable pub memset_page : Memory → ℕ → ℕ → Memory
memset_page m pa c a = if leb pa a && ltb a (pa + pg_size) then word_of_byte c else m a

-- A `memset` of one page leaves the words outside that page alone.
pub memset_page_outside :
    (m : Memory) (pa c a : ℕ) → (a < pa) ⊎ (pa + pg_size ≤ a) → memset_page m pa c a ≡ m a
unfolding memset_page
memset_page_outside m pa c a (inl h) = ground arith
memset_page_outside m pa c a (inr h) = ground arith

-- Page-aligned addresses lie outside every other page.
pub memset_page_other :
    (m : Memory) (pa c a : ℕ)
    → pa % pg_size ≡ 0
    → a % pg_size ≡ 0
    → pa ≢ a
    → memset_page m pa c a ≡ m a
unfolding memset_page
memset_page_other m pa c a hp ha ne = ground arith

pub store_self : (m : Memory) (a v : ℕ) → store m a v a ≡ v
store_self m a v = ground arith
