-- ===== src/Kernel/Fs/Inodes/Trunc.antt =====
-- kernel/fs.c: itrunc, with the inode that it saves.
use os_network_concurrency_s.Common.{ℕ, ◌≡◌, ◌≢◌, ◌==◌, ◌⊎◌, arith, refl, if-all}
use os_network_concurrency_s.Kernel.Fs.Blocks.Trunc.{Truncated}
use os_network_concurrency_s.Kernel.Fs.Inodes.{Entry, Itable, put_entry}

pub entry_here : (i : ℕ) (e : Entry) (s : Itable) → ((put_entry i e s).inode i).copy ≡ e.copy
entry_here i e s =
    if-all (λ x. x.copy ≡ e.copy) (i == i) e (s.inode i) (λ _. refl)
      (λ q. absurd (ground (arith, q)))

-- What `itrunc` leaves: the inode is saved as it is in memory, and nothing else of the table or of
-- the inodes of the disk changes.
pub record Emptied (i : ℕ) (s t : Itable) : Type 0 where
  pub truncated : Truncated (s.inode i).copy s.disk (t.inode i).copy t.disk
  pub saved : t.dinode (s.inode i).dev (s.inode i).inum ≡ (t.inode i).copy
  pub others :
      (dev inum : ℕ)
      → (dev ≢ (s.inode i).dev) ⊎ (inum ≢ (s.inode i).inum)
      → t.dinode dev inum ≡ s.dinode dev inum
  pub entries : (k : ℕ) → k ≢ i → t.inode k ≡ s.inode k
  pub same_ref : (t.inode i).ref ≡ (s.inode i).ref
  pub same_dev : (t.inode i).dev ≡ (s.inode i).dev
  pub same_inum : (t.inode i).inum ≡ (s.inode i).inum
