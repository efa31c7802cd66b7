-- ===== src/Kernel/Fs/Dirs.antt =====
-- kernel/fs.c: directories. An entry is 16 bytes: the number of an inode, and a name of DIRSIZ
-- characters, as a function of the index. The kernel's own buffer can always be copied.
pub mod Lookup
pub mod Get
pub mod Slots
pub mod Link
use os_network_concurrency_s.Common.{
  ℕ, zero, suc, ◌+◌, ◌-◌, ◌*◌, ◌/◌, ◌%◌, ◌^◌, Option, none, some, ltb, ◌==◌, if◌then◌else◌, Bool,
  true, false, ◌||◌, add_uint,
}
use os_network_concurrency_s.Common.Outcome.{Outcome, returns, panics, ◌>>=◌}
use os_network_concurrency_s.Kernel.Fs.Inodes.{Itable, put_entry, iupdate, iget, iput}
use os_network_concurrency_s.Kernel.Fs.Blocks.{Disk, Inode, bsize}
use os_network_concurrency_s.Kernel.Fs.Content.{Read, readi, writei}
use os_network_concurrency_s.Kernel.Fs.Paths.{dirsiz}

abbrev pub t_dir : ℕ
t_dir = 1

-- `sizeof(struct dirent)`
abbrev pub dirent_size : ℕ
dirent_size = 16

-- `de.inum` and `de.name`; inum is a ushort.
abbrev pub de_inum : (ℕ → ℕ) → ℕ
de_inum de = de 0 + 256 * de 1

abbrev pub de_name : (ℕ → ℕ) → ℕ → ℕ
de_name de k = de (2 + k)

-- Whether `namecmp` is 0, from character `k`, with the characters left.
unfoldable pub same_name : ℕ → ℕ → (ℕ → ℕ) → (ℕ → ℕ) → Bool
same_name zero k s t = true
same_name (suc n) k s t =
    let rest = same_name n (k + 1) s t in
    if s k == t k then if s k == 0 then true else rest else false

abbrev pub kernel_reach : ℕ → ℕ
kernel_reach k = bsize

abbrev pub zeros : ℕ → ℕ
zeros k = 0

-- The loop's answer: the offset of the entry, and its inode.
abbrev pub LookResult : Type 0
LookResult = Option (Option (ℕ × ℕ) × (Inode × Disk))

-- What a round makes of the entry, with the rest of the loop; `none` is a panic.
unfoldable pub look_at :
    ℕ → (ℕ → ℕ) → Option ℕ → (ℕ → ℕ) → Inode → Disk → (Inode → Disk → LookResult) → LookResult
look_at off name none de ip d rest = none
look_at off name (some n) de ip d rest =
    if n == dirent_size
    then if de_inum de == 0
      then rest ip d
      else if same_name dirsiz 0 name (de_name de)
      then some (some (off, de_inum de), (ip, d))
      else rest ip d
    else none

unfoldable pub look_read : ℕ → (ℕ → ℕ) → Option Read → (Inode → Disk → LookResult) → LookResult
look_read off name none rest = none
look_read off name (some r) rest = look_at off name r.answer r.buffer r.inode r.disk rest

-- The loop of `dirlookup`, with the rounds left.
unfoldable pub look_from : ℕ → ℕ → (ℕ → ℕ) → Inode → Disk → LookResult
look_from zero off name ip d = some (none, (ip, d))
look_from (suc rounds) off name ip d =
    if ltb off ip.size
    then look_read off name (readi kernel_reach off dirent_size zeros ip d)
        (λ jp e. look_from rounds (add_uint off dirent_size) name jp e)
    else some (none, (ip, d))

-- The search of `dirlookup`, up to its `iget`.
unfoldable pub find_dirent : (ℕ → ℕ) → Inode → Disk → LookResult
find_dirent name dp d =
    if dp.type == t_dir then look_from (dp.size / dirent_size + 1) 0 name dp d else none

-- `strncpy(de.name, name, DIRSIZ)`: the characters before the first 0, and then zeros.
unfoldable pub ended : ℕ → (ℕ → ℕ) → Bool
ended zero name = false
ended (suc k) name = let rest = ended k name in if name k == 0 then true else rest

abbrev pub copied_name : (ℕ → ℕ) → ℕ → ℕ
copied_name name k = if ended k name then 0 else name k

-- The bytes of a new entry; inum becomes a ushort.
abbrev pub new_entry : (ℕ → ℕ) → ℕ → ℕ → ℕ
new_entry name inum k =
    if k == 0 then inum % 256 else if k == 1 then inum / 256 % 256 else copied_name name (k - 2)

-- What the second loop of `dirlink` finds: the offset of an entry that is not in use, or of the end.
abbrev pub Slot : Type 0
Slot = Option (ℕ × (Inode × Disk))

unfoldable pub slot_at : ℕ → Option ℕ → (ℕ → ℕ) → Inode → Disk → (Inode → Disk → Slot) → Slot
slot_at off none de ip d rest = none
slot_at off (some n) de ip d rest =
    if n == dirent_size then if de_inum de == 0 then some (off, (ip, d)) else rest ip d else none

unfoldable pub slot_read : ℕ → Option Read → (Inode → Disk → Slot) → Slot
slot_read off none rest = none
slot_read off (some r) rest = slot_at off r.answer r.buffer r.inode r.disk rest

-- With the rounds left.
unfoldable pub slot_from : ℕ → ℕ → Inode → Disk → Slot
slot_from zero off ip d = some (off, (ip, d))
slot_from (suc rounds) off ip d =
    if ltb off ip.size
    then slot_read off (readi kernel_reach off dirent_size zeros ip d)
        (λ jp e. slot_from rounds (off + dirent_size) jp e)
    else some (off, (ip, d))

-- The directory in entry `i` of the table of inodes, and the disk, after they were read.
abbrev pub stored : ℕ → Inode → Disk → Itable → Itable
stored i ip d s = record (put_entry i (record (s.inode i) { copy = ip }) s) { disk = d }

unfoldable pub look_found : ℕ → LookResult → Itable → Outcome Itable (Option (ℕ × ℕ))
look_found i none s = panics
look_found i (some (none, (ip, d))) s = returns none (stored i ip d s)
look_found i (some (some (off, inum), (ip, d))) s =
    (iget (s.inode i).dev inum >>= λ e t. returns (some (off, e)) t) (stored i ip d s)

-- The offset, and the entry of the inode that was found.
unfoldable pub dirlookup : (ℕ → ℕ) → ℕ → Itable → Outcome Itable (Option (ℕ × ℕ))
dirlookup name i s = look_found i (find_dirent name (s.inode i).copy s.disk) s

-- 0 is `true`, and -1 is `false`. A `writei` that does not fail ends with an iupdate.
unfoldable pub link_wrote : ℕ → Option (Option ℕ × (Inode × Disk)) → Itable → Outcome Itable Bool
link_wrote i none s = panics
link_wrote i (some (none, (ip, d))) s = returns false (stored i ip d s)
link_wrote i (some (some n, (ip, d))) s = returns (n == dirent_size) (iupdate i (stored i ip d s))

unfoldable pub link_slot : (ℕ → ℕ) → ℕ → ℕ → Slot → Itable → Outcome Itable Bool
link_slot name inum i none s = panics
link_slot name inum i (some (off, (ip, d))) s =
    link_wrote i (writei (new_entry name inum) kernel_reach off dirent_size ip d) s

-- After the lookup; an inode that was found is put back.
unfoldable pub link_looked : (ℕ → ℕ) → ℕ → ℕ → Option (ℕ × ℕ) → Itable → Outcome Itable Bool
link_looked name inum i (some (off, e)) s = (iput e >>= λ _ t. returns false t) s
link_looked name inum i none s =
    let dp = (s.inode i).copy in
    link_slot name inum i (slot_from (dp.size / dirent_size + 1) 0 dp s.disk) s

unfoldable pub dirlink : (ℕ → ℕ) → ℕ → ℕ → Itable → Outcome Itable Bool
dirlink name inum i s = (dirlookup name i >>= link_looked name inum i) s
