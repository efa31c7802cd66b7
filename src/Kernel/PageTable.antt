-- ===== src/Kernel/PageTable.antt =====
-- kernel/vm.c: the three-level Sv39 page table. A page table is the address of a page of 512 PTEs
-- in memory. `none` is a panic; the answer 0 / -1 of C is `success` / `failure`.
pub mod Entry
pub mod Read
use os_network_concurrency_s.Common.{
  ℕ, zero, suc, ◌+◌, ◌-◌, ◌*◌, ◌/◌, ◌%◌, ◌^◌, Bool, true, false, Option, none, some, not, leb, ◌==◌,
  if◌then◌else◌, add_uint64,
}
use os_network_concurrency_s.Kernel.Riscv.{pg_size, max_va}
use os_network_concurrency_s.Kernel.Memory.{Memory, store, memset_page}
use os_network_concurrency_s.Kernel.Kalloc.{Kmem, kalloc, kfree}
use Entry.{px, pte2pa, pa2pte, pte_v, pte_u, or_valid, clear_user}

pub data Status : Type 0 where
  success failure : Status

-- `&pagetable[PX(level, va)]`
abbrev pub pte_address : ℕ → ℕ → ℕ → ℕ
pte_address pagetable level va = pagetable + 8 * px level va

-- `*pte = v`
abbrev pub set_pte : ℕ → ℕ → Kmem → Kmem
set_pte pte v k = record k { mem = store k.mem pte v }

-- `memset(page, 0, PGSIZE)`
abbrev pub zero_page : ℕ → Kmem → Kmem
zero_page pa k = record k { mem = memset_page k.mem pa 0 }

-- The loop of `walk` from `level` down: the address of the PTE, or 0.
unfoldable pub walk_from : ℕ → ℕ → ℕ → Bool → Kmem → ℕ × Kmem
walk_from zero pagetable va alloc k = (pte_address pagetable 0 va, k)
walk_from (suc level) pagetable va alloc k =
    let pte = pte_address pagetable (suc level) va in
    elim (pte_v (k.mem pte)) [
      | true ↦ walk_from level (pte2pa (k.mem pte)) va alloc k
      | false ↦ elim alloc [
        | false ↦ (0, k)
        | true ↦
            let (page, k') = kalloc k in
            elim (page == 0) [
              | true ↦ (0, k')
              | false ↦
                  walk_from level page va true
                    (set_pte pte (or_valid (pa2pte page)) (zero_page page k'))
            ]
      ]
    ]

pub walk : ℕ → ℕ → Bool → Kmem → Option (ℕ × Kmem)
walk pagetable va alloc k = if leb max_va va then none else some (walk_from 2 pagetable va alloc k)

-- `walk(pagetable, va, 0)` at an address below MAXVA, which changes nothing: 0 if there is no PTE.
unfoldable pub lookup_pte : ℕ → ℕ → Kmem → ℕ
lookup_pte pagetable va k = (walk_from 2 pagetable va false k).0

unfoldable pub walkaddr : ℕ → ℕ → Kmem → ℕ
walkaddr pagetable va k =
    if leb max_va va
    then 0
    else (let pte = lookup_pte pagetable va k in
        if pte == 0
        then 0
        else if not (pte_v (k.mem pte))
        then 0
        else if not (pte_u (k.mem pte))
        then 0
        else pte2pa (k.mem pte))

pub ismapped : ℕ → ℕ → Kmem → Option Bool
ismapped pagetable va k = elim (walk pagetable va false k) [
  | none ↦ none
  | some (pte, k') ↦ some (if pte == 0 then false else pte_v (k'.mem pte))
]

-- The loop of `mappages`; `rounds` bounds it, and `none` is also fuel that ran out.
pub mappages_from : ℕ → ℕ → ℕ → ℕ → ℕ → ℕ → Kmem → Option (Status × Kmem)
mappages_from zero pagetable a last pa perm k = none
mappages_from (suc rounds) pagetable a last pa perm k = elim (walk pagetable a true k) [
  | none ↦ none
  | some (pte, k') ↦ elim (pte == 0) [
    | true ↦ some (failure, k')
    | false ↦ elim (pte_v (k'.mem pte)) [
      | true ↦ some (failure, k')
      | false ↦
          let k'' = set_pte pte (or_valid (pa2pte pa + perm)) k' in
          elim (a == last) [
            | true ↦ some (success, k'')
            | false ↦
                mappages_from rounds pagetable (add_uint64 a pg_size) last (add_uint64 pa pg_size)
                  perm k''
          ]
    ]
  ]
]

-- One round for each page.
pub mappages : ℕ → ℕ → ℕ → ℕ → ℕ → Kmem → Option (Status × Kmem)
mappages pagetable va size pa perm k =
    if not (va % pg_size == 0)
    then none
    else if not (size % pg_size == 0)
    then none
    else if size == 0
    then none
    else mappages_from (size / pg_size) pagetable va ((va + size + 2 ^ 64 - pg_size) % 2 ^ 64) pa
        perm k

-- One round of the loop of `uvmunmap`.
pub unmap_page : ℕ → ℕ → ℕ → Bool → Kmem → Option Kmem
unmap_page kernel_end pagetable a do_free k = elim (walk pagetable a false k) [
  | none ↦ none
  | some (pte, k') ↦
      if pte == 0
      then some k'
      else if not (pte_v (k'.mem pte))
      then some k'
      else elim (if do_free then kfree kernel_end (pte2pa (k'.mem pte)) k' else some k') [
        | none ↦ none
        | some k'' ↦ some (set_pte pte 0 k'')
      ]
]

pub uvmunmap_from : ℕ → ℕ → ℕ → ℕ → Bool → Kmem → Option Kmem
uvmunmap_from zero kernel_end pagetable a do_free k = some k
uvmunmap_from (suc npages) kernel_end pagetable a do_free k =
    elim (unmap_page kernel_end pagetable a do_free k) [
      | none ↦ none
      | some k' ↦ uvmunmap_from npages kernel_end pagetable (a + pg_size) do_free k'
    ]

pub uvmunmap : ℕ → ℕ → ℕ → ℕ → Bool → Kmem → Option Kmem
uvmunmap kernel_end pagetable va npages do_free k =
    if not (va % pg_size == 0) then none else uvmunmap_from npages kernel_end pagetable va do_free k

pub uvmcreate : Kmem → ℕ × Kmem
uvmcreate k = let (page, k') = kalloc k in if page == 0 then (0, k') else (page, zero_page page k')

pub uvmclear : ℕ → ℕ → Kmem → Option Kmem
uvmclear pagetable va k = elim (walk pagetable va false k) [
  | none ↦ none
  | some (pte, k') ↦ if pte == 0 then none else some (set_pte pte (clear_user (k'.mem pte)) k')
]

pub kvmmap : ℕ → ℕ → ℕ → ℕ → ℕ → Kmem → Option Kmem
kvmmap kpgtbl va pa sz perm k = elim (mappages kpgtbl va sz pa perm k) [
  | some (success, k') ↦ some k'
  | some (failure, k') ↦ none
  | none ↦ none
]
