-- ===== src/Kernel/Fs/Content.antt =====
-- kernel/fs.c: readi and writei. The caller's buffer is read and written by the index of the byte;
-- `reach` is how many bytes from an index on either_copyin or either_copyout gets through before it
-- fails. `none` for the answer is -1. The call of iupdate,
-- which saves the inode, and the log are left out.
pub mod Bytes
pub mod Writes
pub mod Reads
pub mod Roundtrip
use os_network_concurrency_s.Common.{
  ℕ, zero, suc, ◌+◌, ◌-◌, ◌*◌, ◌/◌, ◌%◌, min, Option, none, some, ltb, leb, ◌==◌, if◌then◌else◌,
  update, Bool, true, false, ◌&&◌, ◌||◌, add_uint,
}
use os_network_concurrency_s.Kernel.Fs.Blocks.{Disk, Inode, Mapping, bsize, maxfile, bmap}

-- `m`, the bytes of one round
abbrev pub chunk : ℕ → ℕ → ℕ → ℕ
chunk n tot off = min (n - tot) (bsize - off % bsize)

-- How a loop ends: how many bytes it moved, and its offset then.
pub record Moved : Type 0 where
  pub total : ℕ
  pub offset : ℕ
  pub inode : Inode
  pub disk : Disk

-- `count` bytes of the buffer from index `tot` on, to offset `o` of block `b`.
unfoldable pub copy_in : (ℕ → ℕ) → ℕ → ℕ → ℕ → ℕ → Disk → Disk
copy_in buffer tot count b o d = record d {
  bytes =
      update d.bytes b
        (λ i. if leb o i && ltb i (o + count) then buffer (tot + (i - o)) else d.bytes b i);
}

-- A round of `writei` after its `bmap`, with the rest of the loop.
unfoldable pub write_round :
    (buffer reach : ℕ → ℕ) (n tot off : ℕ)
    → Option Mapping
    → (Inode → Disk → Option Moved)
    → Option Moved
write_round buffer reach n tot off none rest = none
write_round buffer reach n tot off (some m) rest =
    let k = chunk n tot off in
    if m.addr == 0
    then some (record { total = tot; offset = off; inode = m.inode; disk = m.disk })
    else if leb k (reach tot)
    then rest m.inode (copy_in buffer tot k m.addr (off % bsize) m.disk)
    else some (record {
      total = tot;
      offset = off;
      inode = m.inode;
      disk = copy_in buffer tot (reach tot) m.addr (off % bsize) m.disk;
    })

-- The loop of `writei`, with the rounds left.
unfoldable pub write_from :
    (buffer reach : ℕ → ℕ) (rounds n tot off : ℕ) → Inode → Disk → Option Moved
write_from buffer reach zero n tot off ip d =
    some (record { total = tot; offset = off; inode = ip; disk = d })
write_from buffer reach (suc rounds) n tot off ip d =
    if ltb tot n
    then write_round buffer reach n tot off (bmap (off / bsize) ip d) (λ jp e.
      write_from buffer reach rounds n (tot + chunk n tot off) (off + chunk n tot off) jp e)
    else some (record { total = tot; offset = off; inode = ip; disk = d })

-- `if(off > ip->size) ip->size = off`
abbrev pub with_size : ℕ → Inode → Inode
with_size off ip = if ltb ip.size off then record ip { size = off } else ip

abbrev pub wrote : Option Moved → Option (Option ℕ × (Inode × Disk))
wrote none = none
wrote (some r) = some (some r.total, (with_size r.offset r.inode, r.disk))

unfoldable pub writei :
    (buffer reach : ℕ → ℕ) (off n : ℕ) → Inode → Disk → Option (Option ℕ × (Inode × Disk))
writei buffer reach off n ip d =
    if ltb ip.size off || ltb (add_uint off n) off
    then some (none, (ip, d))
    else if ltb (maxfile * bsize) (add_uint off n)
    then some (none, (ip, d))
    else wrote (write_from buffer reach n n 0 off ip d)

-- What `readi` comes to, with the caller's buffer.
pub record Read : Type 0 where
  pub answer : Option ℕ
  pub buffer : ℕ → ℕ
  pub inode : Inode
  pub disk : Disk

-- `count` bytes from offset `o` of block `b`, to the buffer from index `tot` on.
unfoldable pub copy_out : (ℕ → ℕ) → ℕ → ℕ → ℕ → ℕ → Disk → ℕ → ℕ
copy_out buffer tot count b o d i =
    if leb tot i && ltb i (tot + count) then d.bytes b (o + (i - tot)) else buffer i

-- A round of `readi` after its `bmap`, with the rest of the loop.
unfoldable pub read_round :
    (reach : ℕ → ℕ) (n tot off : ℕ) (buffer : ℕ → ℕ)
    → Option Mapping
    → ((ℕ → ℕ) → Inode → Disk → Option Read)
    → Option Read
read_round reach n tot off buffer none rest = none
read_round reach n tot off buffer (some m) rest =
    let k = chunk n tot off in
    if m.addr == 0
    then some (record { answer = some tot; buffer = buffer; inode = m.inode; disk = m.disk })
    else if leb k (reach tot)
    then rest (copy_out buffer tot k m.addr (off % bsize) m.disk) m.inode m.disk
    else some (record {
      answer = none;
      buffer = copy_out buffer tot (reach tot) m.addr (off % bsize) m.disk;
      inode = m.inode;
      disk = m.disk;
    })

-- The loop of `readi`, with the rounds left.
unfoldable pub read_from :
    (reach : ℕ → ℕ) (rounds n tot off : ℕ) → (ℕ → ℕ) → Inode → Disk → Option Read
read_from reach zero n tot off buffer ip d =
    some (record { answer = some tot; buffer = buffer; inode = ip; disk = d })
read_from reach (suc rounds) n tot off buffer ip d =
    if ltb tot n
    then read_round reach n tot off buffer (bmap (off / bsize) ip d) (λ got jp e.
      read_from reach rounds n (tot + chunk n tot off) (off + chunk n tot off) got jp e)
    else some (record { answer = some tot; buffer = buffer; inode = ip; disk = d })

-- `if(off + n > ip->size) n = ip->size - off`
abbrev pub cut : ℕ → ℕ → ℕ → ℕ
cut size off n = if ltb size (add_uint off n) then size - off else n

unfoldable pub readi : (reach : ℕ → ℕ) (off n : ℕ) → (ℕ → ℕ) → Inode → Disk → Option Read
readi reach off n buffer ip d =
    if ltb ip.size off || ltb (add_uint off n) off
    then some (record { answer = some 0; buffer = buffer; inode = ip; disk = d })
    else let m = cut ip.size off n in read_from reach m m 0 off buffer ip d
