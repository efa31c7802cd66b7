-- ===== src/Kernel/Fs/Blocks.antt =====
-- kernel/fs.c: the blocks of the disk and those of an inode: balloc, bfree, bmap, and itrunc up to its iupdate. A block is
-- its bytes; the free map and the blocks of inodes are kept apart from the others, a bit of the map as
-- a Boolean. What is logged is left to the log.
pub mod Bmap
pub mod Steps
pub mod Freeing
pub mod Trunc
use os_network_concurrency_s.Common.{
  ℕ, zero, suc, ◌+◌, ◌-◌, ◌*◌, ◌/◌, ◌%◌, ◌^◌, Option, none, some, ltb, ◌==◌, if◌then◌else◌, update,
  Bool, true, false, not,
}

abbrev pub bsize : ℕ
bsize = 1024

abbrev pub ndirect : ℕ
ndirect = 12

abbrev pub nindirect : ℕ
nindirect = 256

abbrev pub maxfile : ℕ
maxfile = ndirect + nindirect

-- `size` is the one of the super block.
pub record Disk : Type 0 where
  pub size : ℕ
  pub in_use : ℕ → Bool
  pub bytes : ℕ → ℕ → ℕ

-- `a[j]` for a block seen as an array of uint, the low byte first.
unfoldable pub word : (ℕ → ℕ) → ℕ → ℕ
word block j =
    block (4 * j)
    + 256 * block (4 * j + 1)
    + 2 ^ 16 * block (4 * j + 2)
    + 2 ^ 24 * block (4 * j + 3)

-- Byte `k` of a uint.
abbrev pub byte_of : ℕ → ℕ → ℕ
byte_of a k =
    if k == 0
    then a % 256
    else if k == 1
    then a / 256 % 256
    else if k == 2
    then a / 2 ^ 16 % 256
    else a / 2 ^ 24 % 256

-- `a[j] = addr`
unfoldable pub set_word : (ℕ → ℕ) → ℕ → ℕ → ℕ → ℕ
set_word block j addr i = if i / 4 == j then byte_of addr (i % 4) else block i

-- The entries of block `b` as an indirect block.
abbrev pub entries : Disk → ℕ → ℕ → ℕ
entries d b = word (d.bytes b)

-- The part of `struct inode` that lies on the disk.
pub record Inode : Type 0 where
  pub type : ℕ
  pub major : ℕ
  pub minor : ℕ
  pub nlink : ℕ
  pub size : ℕ
  pub addrs : ℕ → ℕ

unfoldable pub bzero : ℕ → Disk → Disk
bzero b d = record d { bytes = update d.bytes b (λ _. 0) }

-- The first free block from `b`, with the rounds left: the two loops of `balloc` go over the block
-- numbers in order.
unfoldable pub find_block : ℕ → ℕ → (ℕ → Bool) → Option ℕ
find_block zero b in_use = none
find_block (suc n) b in_use =
    let rest = find_block n (b + 1) in_use in if in_use b then rest else some b

-- With the block that was found; 0 if there is none.
unfoldable pub balloc_found : Option ℕ → Disk → ℕ × Disk
balloc_found none d = (0, d)
balloc_found (some b) d = (b, bzero b (record d { in_use = update d.in_use b true }))

unfoldable pub balloc : Disk → ℕ × Disk
balloc d = balloc_found (find_block d.size 0 d.in_use) d

-- `none` is a panic.
unfoldable pub bfree : ℕ → Disk → Option Disk
bfree b d = if d.in_use b then some (record d { in_use = update d.in_use b false }) else none

-- What `bmap` comes to: the block, or 0.
pub record Mapping : Type 0 where
  pub addr : ℕ
  pub inode : Inode
  pub disk : Disk

-- After a `balloc` for `ip->addrs[k]`.
unfoldable pub store_addr : ℕ → Inode → ℕ × Disk → Mapping
store_addr k ip (a, d) =
    if a == 0
    then record { addr = 0; inode = ip; disk = d }
    else record { addr = a; inode = record ip { addrs = update ip.addrs k a }; disk = d }

-- `ip->addrs[k]`, allocated if it is 0
unfoldable pub ensure_addr : ℕ → Inode → Disk → Mapping
ensure_addr k ip d =
    if ip.addrs k == 0
    then store_addr k ip (balloc d)
    else record { addr = ip.addrs k; inode = ip; disk = d }

-- After a `balloc` for entry `j` of the indirect block `b`.
unfoldable pub store_entry : ℕ → ℕ → Inode → ℕ × Disk → Mapping
store_entry b j ip (a, d) = if a == 0 then record { addr = 0; inode = ip; disk = d } else record {
  addr = a;
  inode = ip;
  disk = record d { bytes = update d.bytes b (set_word (d.bytes b) j a) };
}

-- Entry `j` of the indirect block, allocated if it is 0.
unfoldable pub ensure_entry : ℕ → Mapping → Mapping
ensure_entry j m =
    if m.addr == 0
    then m
    else if entries m.disk m.addr j == 0
    then store_entry m.addr j m.inode (balloc m.disk)
    else record { addr = entries m.disk m.addr j; inode = m.inode; disk = m.disk }

-- `none` is a panic.
unfoldable pub bmap : ℕ → Inode → Disk → Option Mapping
bmap bn ip d =
    if ltb bn ndirect
    then some (ensure_addr bn ip d)
    else if ltb (bn - ndirect) nindirect
    then some (ensure_entry (bn - ndirect) (ensure_addr ndirect ip d))
    else none

unfoldable pub and_then {ℓ} : {R : Type ℓ} → Option Disk → (Disk → Option R) → Option R
and_then none rest = none
and_then (some d) rest = rest d

-- The loop of `itrunc` over `ip->addrs`, with the rounds left.
unfoldable pub free_direct : ℕ → ℕ → Inode → Disk → Option (Inode × Disk)
free_direct zero i ip d = some (ip, d)
free_direct (suc rounds) i ip d =
    let rest = free_direct rounds (i + 1) in
    if ip.addrs i == 0
    then rest ip d
    else and_then (bfree (ip.addrs i) d) (λ e. rest (record ip { addrs = update ip.addrs i 0 }) e)

-- Its loop over the entries of the indirect block `b`.
unfoldable pub free_entries : ℕ → ℕ → ℕ → Disk → Option Disk
free_entries zero j b d = some d
free_entries (suc rounds) j b d =
    let rest = free_entries rounds (j + 1) b in
    if entries d b j == 0 then rest d else and_then (bfree (entries d b j) d) rest

unfoldable pub free_indirect : Inode → Disk → Option (Inode × Disk)
free_indirect ip d =
    let b = ip.addrs ndirect in
    if b == 0
    then some (ip, d)
    else and_then (free_entries nindirect 0 b d)
        (λ e. and_then (bfree b e) (λ f. some (record ip { addrs = update ip.addrs ndirect 0 }, f)))

-- `ip->size = 0`, after the loops
abbrev pub emptied : Option (Inode × Disk) → Option (Inode × Disk)
emptied none = none
emptied (some (ip, d)) = some (record ip { size = 0 }, d)

abbrev pub then_indirect : Option (Inode × Disk) → Option (Inode × Disk)
then_indirect none = none
then_indirect (some (ip, d)) = free_indirect ip d

-- `itrunc` up to its iupdate
unfoldable pub trunc_blocks : Inode → Disk → Option (Inode × Disk)
trunc_blocks ip d = emptied (then_indirect (free_direct ndirect 0 ip d))
