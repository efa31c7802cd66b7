-- ===== src/Kernel/Fs/Inodes.antt =====
-- kernel/fs.c: the table of inodes in memory. An entry is the number of its place. What runs under
-- `itable.lock`, or under the lock of the inode, is one step; `iput` is one step as a whole, since
-- nobody else can find an inode with one reference and no links. The inodes of the disk are
-- those of a device and a number, the blocks those of one device.
pub mod Get
pub mod Trunc
pub mod Put
use os_network_concurrency_s.Common.{
  ℕ, zero, suc, ◌+◌, ◌-◌, ◌^◌, Option, none, some, leb, ltb, ◌==◌, if◌then◌else◌, update, Bool,
  true, false, ◌&&◌, not,
}
use os_network_concurrency_s.Common.Outcome.{Outcome, returns, panics, faults, ◌>>=◌}
use os_network_concurrency_s.Kernel.Fs.Blocks.{Disk, Inode, trunc_blocks}

abbrev pub ninode : ℕ
ninode = 50

-- `struct inode`, with the copy of what lies on the disk.
pub record Entry : Type 0 where
  pub dev : ℕ
  pub inum : ℕ
  pub ref : ℕ
  pub valid : Bool
  pub copy : Inode

pub record Itable : Type 0 where
  pub inode : ℕ → Entry
  pub dinode : ℕ → ℕ → Inode
  pub disk : Disk

abbrev pub put_entry : ℕ → Entry → Itable → Itable
put_entry i e s = record s { inode = update s.inode i e }

abbrev pub holds_inode : ℕ → ℕ → Entry → Bool
holds_inode dev inum e = ltb 0 e.ref && (e.dev == dev && e.inum == inum)

-- `if(empty == 0 && ip->ref == 0) empty = ip`
abbrev pub remember : ℕ → Entry → Option ℕ → Option ℕ
remember i e none = if e.ref == 0 then some i else none
remember i e (some empty) = some empty

-- What the loop of `iget` finds: the inode, or the slot that it remembered.
pub data Scan : Type 0 where
  hit : ℕ → Scan
  miss : Option ℕ → Scan

-- The loop of `iget` from entry `i`, with the rounds left.
unfoldable pub scan : ℕ → ℕ → ℕ → ℕ → Option ℕ → (ℕ → Entry) → Scan
scan zero i dev inum empty inode = miss empty
scan (suc n) i dev inum empty inode =
    let rest = scan n (i + 1) dev inum (remember i (inode i) empty) inode in
    if holds_inode dev inum (inode i) then hit i else rest

-- `ip->ref++`, on an int
unfoldable pub add_reference : ℕ → Itable → Outcome Itable ℕ
add_reference i s =
    let e = s.inode i in
    if leb (2 ^ 31) (e.ref + 1)
    then faults
    else returns i (put_entry i (record e { ref = e.ref + 1 }) s)

unfoldable pub get_scanned : ℕ → ℕ → Scan → Itable → Outcome Itable ℕ
get_scanned dev inum (hit i) s = add_reference i s
get_scanned dev inum (miss none) s = panics
get_scanned dev inum (miss (some i)) s =
    returns i
      (put_entry i (record (s.inode i) { dev = dev; inum = inum; ref = 1; valid = false }) s)

unfoldable pub iget : ℕ → ℕ → Itable → Outcome Itable ℕ
iget dev inum s = get_scanned dev inum (scan ninode 0 dev inum none s.inode) s

unfoldable pub idup : ℕ → Itable → Outcome Itable ℕ
idup i s = add_reference i s

-- The copy of an inode goes to the disk.
unfoldable pub iupdate : ℕ → Itable → Itable
iupdate i s =
    let e = s.inode i in
    record s { dinode = update s.dinode e.dev (update (s.dinode e.dev) e.inum e.copy) }

-- `ilock`, when it has the sleep lock.
unfoldable pub ilock : ℕ → Itable → Outcome Itable ℕ
ilock i s =
    let e = s.inode i in
    let copy = s.dinode e.dev e.inum in
    if ltb e.ref 1
    then panics
    else if e.valid
    then returns i s
    else if copy.type == 0
    then panics
    else returns i (put_entry i (record e { copy = copy; valid = true }) s)

abbrev pub drop_reference : ℕ → Itable → Itable
drop_reference i s = let e = s.inode i in put_entry i (record e { ref = e.ref - 1 }) s

-- The last steps of `itrunc`; `none` is a panic.
unfoldable pub save_truncated : ℕ → Option (Inode × Disk) → Itable → Option Itable
save_truncated i none s = none
save_truncated i (some (ip, d)) s =
    some (iupdate i (record (put_entry i (record (s.inode i) { copy = ip }) s) { disk = d }))

unfoldable pub itrunc : ℕ → Itable → Option Itable
itrunc i s = save_truncated i (trunc_blocks (s.inode i).copy s.disk) s

-- After `itrunc`, in `iput`.
unfoldable pub put_truncated : ℕ → Option Itable → Outcome Itable ℕ
put_truncated i none = panics
put_truncated i (some s) =
    let e = s.inode i in
    let s' = iupdate i (put_entry i (record e { copy = record e.copy { type = 0 } }) s) in
    returns i (drop_reference i (put_entry i (record (s'.inode i) { valid = false }) s'))

-- The caller has a reference, so `ref` is not 0.
unfoldable pub iput : ℕ → Itable → Outcome Itable ℕ
iput i s =
    let e = s.inode i in
    if e.ref == 1 && (e.valid && e.copy.nlink == 0)
    then put_truncated i (itrunc i s)
    else returns i (drop_reference i s)

-- The loop of `ialloc` from `inum`, with the rounds left.
unfoldable pub find_dinode : ℕ → ℕ → (ℕ → Inode) → Option ℕ
find_dinode zero inum dinode = none
find_dinode (suc n) inum dinode =
    let rest = find_dinode n (inum + 1) dinode in
    if (dinode inum).type == 0 then some inum else rest

-- memset of the inode, and its type
abbrev pub fresh_inode : ℕ → Inode
fresh_inode type = record { type = type; major = 0; minor = 0; nlink = 0; size = 0; addrs = λ k. 0 }

unfoldable pub alloc_dinode : ℕ → ℕ → Option ℕ → Itable → Outcome Itable (Option ℕ)
alloc_dinode dev type none s = returns none s
alloc_dinode dev type (some inum) s =
    (iget dev inum >>= λ i t. returns (some i) t)
      (record s { dinode = update s.dinode dev (update (s.dinode dev) inum (fresh_inode type)) })

-- `ninodes` is the one of the super block.
unfoldable pub ialloc : ℕ → ℕ → ℕ → Itable → Outcome Itable (Option ℕ)
ialloc ninodes dev type s = alloc_dinode dev type (find_dinode (ninodes - 1) 1 (s.dinode dev)) s
