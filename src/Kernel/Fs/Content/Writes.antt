-- ===== src/Kernel/Fs/Content/Writes.antt =====
-- kernel/fs.c: what writei leaves.
use os_network_concurrency_s.Common.{
  ℕ, ◌+◌, ◌-◌, ◌*◌, ◌/◌, ◌≡◌, ◌≢◌, ◌<◌, ◌≤◌, ltb, if◌then◌else◌, ◌⊎◌,
}
use os_network_concurrency_s.Kernel.Fs.Blocks.{Disk, Inode, bsize, maxfile}
use os_network_concurrency_s.Kernel.Fs.Blocks.Bmap.{Full, block_of, Owns}
use os_network_concurrency_s.Kernel.Fs.Content.{chunk, Moved}
use os_network_concurrency_s.Kernel.Fs.Content.Bytes.{file_byte}

-- What the loop of `writei` leaves, from byte `tot` of the buffer and offset `off` on.
pub record Wrote (buffer reach : ℕ → ℕ) (n tot off : ℕ) (ip : Inode) (d : Disk) (r : Moved)
    : Type 0 where
  pub owns : Owns r.inode r.disk
  pub low : tot ≤ r.total
  pub high : r.total ≤ n
  pub offset : r.offset ≡ off + (r.total - tot)
  pub written :
      (k : ℕ) → tot ≤ k → k < r.total → file_byte r.inode r.disk (off + (k - tot)) ≡ buffer k
  pub others :
      (x : ℕ)
      → x < maxfile * bsize
      → (x < off) ⊎ (off + (n - tot) ≤ x)
      → file_byte r.inode r.disk x ≡ file_byte ip d x
  pub present :
      (x : ℕ) → off ≤ x → x < off + (r.total - tot) → block_of r.inode r.disk (x / bsize) ≢ 0
  pub stay : (bn : ℕ) → bn < maxfile → block_of ip d bn ≢ 0 → block_of r.inode r.disk bn ≢ 0
  pub same_size : r.inode.size ≡ ip.size
  pub same_type : r.inode.type ≡ ip.type
  -- Short only if the disk is full or the buffer cannot be read.
  pub ends : (r.total ≡ n) ⊎ (Full r.disk ⊎ (reach r.total < chunk n r.total r.offset))

-- The largest size of a file, in bytes.
abbrev pub max_size : ℕ
max_size = maxfile * bsize

-- The size of the file after `t` bytes were written at `off`.
abbrev pub grown_size : ℕ → ℕ → ℕ → ℕ
grown_size size off t = if ltb size (off + t) then off + t else size

-- What `writei` leaves after `t` bytes: the file has got them at `off`, the other bytes up to a
-- file's largest size stay, and the file has grown up to them.
pub record WriteEnds (buffer reach : ℕ → ℕ) (off n t : ℕ) (ip : Inode) (d : Disk) (jp : Inode)
    (e : Disk) : Type 0 where
  pub owns : Owns jp e
  pub high : t ≤ n
  pub written : (k : ℕ) → k < t → file_byte jp e (off + k) ≡ buffer k
  pub others :
      (x : ℕ) → x < max_size → (x < off) ⊎ (off + n ≤ x) → file_byte jp e x ≡ file_byte ip d x
  pub present : (x : ℕ) → off ≤ x → x < off + t → block_of jp e (x / bsize) ≢ 0
  pub stay : (bn : ℕ) → bn < maxfile → block_of ip d bn ≢ 0 → block_of jp e bn ≢ 0
  pub type : jp.type ≡ ip.type
  pub size : jp.size ≡ grown_size ip.size off t
  pub ends : (t ≡ n) ⊎ (Full e ⊎ (reach t < chunk n t (off + t)))
