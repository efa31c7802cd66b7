-- ===== src/Kernel/Fs/Inodes/Put.antt =====
-- kernel/fs.c: what iput does to an inode that nobody needs, and what ilock reads.
use os_network_concurrency_s.Common.{ℕ, ◌-◌, ◌≡◌, ◌≢◌, ◌==◌, Bool, true, false, ◌&&◌, ◌⊎◌}
use os_network_concurrency_s.Common.Outcome.{Outcome}
use os_network_concurrency_s.Kernel.Fs.Blocks.Trunc.{Truncated}
use os_network_concurrency_s.Kernel.Fs.Inodes.{Entry, Itable, put_entry, iupdate, drop_reference}

-- The last reference to an inode without links.
abbrev pub is_last : Entry → Bool
is_last e = e.ref == 1 && (e.valid && e.copy.nlink == 0)

-- The inode is free on the disk, and its blocks are.
pub record Removed (i : ℕ) (s t : Itable) : Type 0 where
  pub truncated : Truncated (s.inode i).copy s.disk (t.inode i).copy t.disk
  pub free_type : (t.inode i).copy.type ≡ 0
  pub saved : t.dinode (s.inode i).dev (s.inode i).inum ≡ (t.inode i).copy
  pub others :
      (dev inum : ℕ)
      → (dev ≢ (s.inode i).dev) ⊎ (inum ≢ (s.inode i).inum)
      → t.dinode dev inum ≡ s.dinode dev inum
  pub not_valid : (t.inode i).valid ≡ false

-- What `iput` leaves.
pub record PutEnds (i : ℕ) (s t : Itable) : Type 0 where
  pub less : (t.inode i).ref ≡ (s.inode i).ref - 1
  pub entries : (k : ℕ) → k ≢ i → t.inode k ≡ s.inode k
  pub content :
      ((is_last (s.inode i) ≡ true) × Removed i s t)
      ⊎ ((is_last (s.inode i) ≡ false)
          × ((t.disk ≡ s.disk) × ((t.dinode ≡ s.dinode) × ((t.inode i).copy ≡ (s.inode i).copy))))

-- The state that the removal of an inode leaves, after its `itrunc`.
abbrev removed : ℕ → Itable → Itable
unfolding iupdate
removed i t =
    let e = t.inode i in
    let s' = iupdate i (put_entry i (record e { copy = record e.copy { type = 0 } }) t) in
    drop_reference i (put_entry i (record (s'.inode i) { valid = false }) s')
