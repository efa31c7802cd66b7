-- ===== src/Kernel/PageTable/Entry.antt =====
-- kernel/riscv.h: the parts of a page-table entry. The shifts and masks are divisions and
-- remainders by powers of two; `|` of disjoint bits is a sum.
use os_network_concurrency_s.Common.{
  ℕ, zero, suc, ◌+◌, ◌-◌, ◌*◌, ◌/◌, ◌%◌, ◌^◌, ◌≡◌, ◌<◌, Bool, ◌==◌, arith,
}

-- `PX(level, va)`
abbrev pub px : ℕ → ℕ → ℕ
px zero va = va / 2 ^ 12 % 512
px (suc zero) va = va / 2 ^ 21 % 512
px (suc (suc level)) va = va / 2 ^ 30 % 512

-- `PA2PTE(pa)`
abbrev pub pa2pte : ℕ → ℕ
pa2pte pa = pa / 2 ^ 12 * 2 ^ 10

-- `PTE2PA(pte)`, a shift in 64 bits
abbrev pub pte2pa : ℕ → ℕ
pte2pa pte = pte / 2 ^ 10 * 2 ^ 12 % 2 ^ 64

-- `PTE_FLAGS(pte)`
abbrev pub pte_flags : ℕ → ℕ
pte_flags pte = pte % 2 ^ 10

abbrev pub pte_r : ℕ
pte_r = 2

abbrev pub pte_w_bit : ℕ
pte_w_bit = 4

abbrev pub pte_x : ℕ
pte_x = 8

abbrev pub pte_u_bit : ℕ
pte_u_bit = 16

-- `pte & PTE_V`, `pte & PTE_W`, `pte & PTE_U` as truth values
abbrev pub pte_v : ℕ → Bool
pte_v pte = pte % 2 == 1

abbrev pub pte_w : ℕ → Bool
pte_w pte = pte / 4 % 2 == 1

abbrev pub pte_u : ℕ → Bool
pte_u pte = pte / 16 % 2 == 1

-- `pte & (PTE_R | PTE_W | PTE_X)`
abbrev pub rwx_bits : ℕ → ℕ
rwx_bits pte = pte / 2 % 8

-- `pte | PTE_V`, `pte | PTE_W`, `pte & ~PTE_U`
abbrev pub or_valid : ℕ → ℕ
or_valid pte = pte + (1 - pte % 2)

abbrev pub or_write : ℕ → ℕ
or_write pte = pte + 4 * (1 - pte / 4 % 2)

abbrev pub clear_user : ℕ → ℕ
clear_user pte = pte - 16 * (pte / 16 % 2)

-- The address and the flags that a PTE is made of come back out of it.
pub pte_parts :
    (pa perm : ℕ)
    → pa % 2 ^ 12 ≡ 0
    → pa < 2 ^ 56
    → perm < 2 ^ 10
    → (pte2pa (or_valid (pa2pte pa + perm)) ≡ pa)
      × (pte_flags (or_valid (pa2pte pa + perm)) ≡ or_valid perm)
pte_parts pa perm al lt small = omega arith
