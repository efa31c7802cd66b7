-- ===== src/Kernel/Fs/Dirs/Link.antt =====
-- kernel/fs.c: what dirlookup finds after dirlink.
use os_network_concurrency_s.Common.{
  ℕ, ◌+◌, ◌*◌, ◌%◌, ◌^◌, ◌≡◌, ◌≢◌, ◌≤◌, ◌<◌, Option, some, Bool, true, false, ◌⊎◌,
}
use os_network_concurrency_s.Common.Outcome.{Outcome, returns, panics, faults, exits}
use os_network_concurrency_s.Kernel.Fs.Inodes.{ninode, Itable}
use os_network_concurrency_s.Kernel.Fs.Inodes.Get.{Holds}
use os_network_concurrency_s.Kernel.Fs.Blocks.{Disk, Inode}
use os_network_concurrency_s.Kernel.Fs.Blocks.Bmap.{Full}
use os_network_concurrency_s.Kernel.Fs.Dirs.{dirent_size, find_dirent, new_entry, link_looked}
use os_network_concurrency_s.Kernel.Fs.Dirs.Lookup.{IsDir, entry, is_for, LookEnds}
use os_network_concurrency_s.Kernel.Fs.Dirs.Slots.{Free}

-- The directory with the new entry at place `k`.
record Entered (name : ℕ → ℕ) (inum k : ℕ) (ip : Inode) (d : Disk) (jp : Inode) (e : Disk)
    : Type 0 where
  dir : IsDir jp e
  type : jp.type ≡ ip.type
  inside : k * dirent_size < jp.size
  new : (c : ℕ) → c < dirent_size → entry jp e k c ≡ new_entry name inum c
  old :
      (i c : ℕ)
      → i ≢ k
      → i * dirent_size < jp.size
      → c < dirent_size
      → (i * dirent_size < ip.size) × (entry jp e i c ≡ entry ip d i c)

-- Where `dirlink` has put the entry, if it answers 0, and why it has not, if it answers -1.
abbrev pub LinkEnds : (ℕ → ℕ) → ℕ → Inode → Disk → Inode → Disk → Bool → Type 0
LinkEnds name inum dp d jp e true =
    (k : ℕ) × (Free k dp d
      × (((inum % 2 ^ 16 ≡ 0)
            ⊎ ((kp : Inode) × ((f : Disk) × (find_dirent name jp e
                    ≡ some (some (k * dirent_size, inum % 2 ^ 16), (kp, f))))))
          × (((c : ℕ) → c < dirent_size → entry jp e k c ≡ new_entry name inum c)
              × ((i c : ℕ)
                  → i ≢ k
                  → i * dirent_size < dp.size
                  → c < dirent_size
                  → entry jp e i c ≡ entry dp d i c))))
LinkEnds name inum dp d jp e false =
    ((k : ℕ) × ((k * dirent_size < dp.size) × (is_for name dp d k ≡ true))) ⊎ Full e

-- What `dirlink` comes to in the directory of entry `i`. The panic and the overflow are those of
-- `iget` in the lookup.
abbrev pub LinkOutcome : (ℕ → ℕ) → ℕ → ℕ → Itable → Outcome Itable Bool → Type 0
LinkOutcome name inum i s (returns b t) =
    LinkEnds name inum (s.inode i).copy s.disk (t.inode i).copy t.disk b
LinkOutcome name inum i s panics =
    (off : ℕ) × ((other : ℕ) × (LookEnds name 0 (s.inode i).copy s.disk (some (off, other))
        × ((k : ℕ)
            → k < ninode
            → ((s.inode k).ref ≢ 0) × ¬ Holds (s.inode i).dev other (s.inode k))))
LinkOutcome name inum i s faults = (k : ℕ) × ((k < ninode) × (2 ^ 31 ≤ (s.inode k).ref + 1))
LinkOutcome name inum i s (exits t) = ⊥

abbrev after : (ℕ → ℕ) → ℕ → ℕ → Outcome Itable (Option (ℕ × ℕ)) → Outcome Itable Bool
after name inum i o = elim o [
  | returns a t ↦ link_looked name inum i a t
  | exits t ↦ exits t
  | panics ↦ panics
  | faults ↦ faults
]

abbrev after_put : Outcome Itable ℕ → Outcome Itable Bool
after_put o = elim o [
  | returns a t ↦ returns false t
  | exits t ↦ exits t
  | panics ↦ panics
  | faults ↦ faults
]
