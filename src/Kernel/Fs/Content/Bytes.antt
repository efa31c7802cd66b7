-- ===== src/Kernel/Fs/Content/Bytes.antt =====
-- kernel/fs.c: the bytes of a file, and what bmap and a copy into a block do to them.
use os_network_concurrency_s.Common.{
  ℕ, ◌+◌, ◌-◌, ◌*◌, ◌/◌, ◌%◌, ◌≡◌, ◌≢◌, ◌<◌, ◌≤◌, ltb, leb, ◌==◌, if◌then◌else◌, ◌&&◌, arith, refl,
  sym, ◌∙◌, ap, ◌⊎◌, inl, inr, ℕ_discrete, if-all,
}
use os_network_concurrency_s.Kernel.Fs.Blocks.{Disk, Inode, Mapping, bsize, ndirect, maxfile, word}
use os_network_concurrency_s.Kernel.Fs.Blocks.Bmap.{block_of, Owns, Mapped}
use os_network_concurrency_s.Kernel.Fs.Content.{copy_in}

-- Byte `x` of the file; a block that is missing reads as zeros.
unfoldable pub file_byte : Inode → Disk → ℕ → ℕ
file_byte ip d x =
    if block_of ip d (x / bsize) == 0 then 0 else d.bytes (block_of ip d (x / bsize)) (x % bsize)

pub bmap-file_byte :
    (bn : ℕ) (ip : Inode) (d : Disk) (m : Mapping)
    → bn < maxfile
    → Owns ip d
    → Mapped bn ip d m
    → (x : ℕ) → x < maxfile * bsize
    → file_byte m.inode m.disk x ≡ file_byte ip d x
unfolding file_byte
bmap-file_byte bn ip d m lt h p x l =
    let low : x / bsize < maxfile = omega arith in
    let old = block_of ip d (x / bsize) in
    let new = block_of m.inode m.disk (x / bsize) in
    elim (ℕ_discrete (x / bsize) bn) [
      | no ne ↦
          let same = p.kept (x / bsize) low (inl ne) in
          ground (
            arith,
            same,
            p.kept_bytes old (x % bsize) (h.used (x / bsize) low),
            p.owns.apart (x / bsize) low,
          )
      | yes q ↦ elim (ℕ_discrete old 0) [
        | no nz ↦
            let same = p.kept (x / bsize) low (inr nz) in
            ground (
              arith,
              same,
              p.kept_bytes old (x % bsize) (h.used (x / bsize) low),
              p.owns.apart (x / bsize) low,
            )
        | yes z ↦
            let found : new ≡ m.addr = ap (block_of m.inode m.disk) q ∙ p.found in
            let was : block_of ip d bn ≡ 0 = ap (block_of ip d) (sym q) ∙ z in
            elim (ℕ_discrete m.addr 0) [
              | yes a ↦ ground (arith, a, found, z)
              | no a ↦ ground (arith, a, found, z, p.new_zero was a (x % bsize))
            ]
      ]
    ]

copy_in-other :
    (buffer : ℕ → ℕ) (tot count b o : ℕ) (d : Disk) (c : ℕ)
    → b ≢ c
    → (copy_in buffer tot count b o d).bytes c ≡ d.bytes c
unfolding copy_in
copy_in-other buffer tot count b o d c ne =
    if-all (λ g. g ≡ d.bytes c) (b == c) _ _ (λ t. absurd (ne (ground (arith, t)))) (λ _. refl)

-- A copy into another block than the indirect one leaves the blocks of the file.
pub copy_in-block_of :
    (buffer : ℕ → ℕ) (tot count b o : ℕ) (ip : Inode) (d : Disk) (bn : ℕ)
    → b ≢ ip.addrs ndirect
    → block_of ip (copy_in buffer tot count b o d) bn ≡ block_of ip d bn
unfolding block_of
copy_in-block_of buffer tot count b o ip d bn ne =
    ap
      (λ g.
        if ltb bn ndirect
        then ip.addrs bn
        else if ip.addrs ndirect == 0
        then 0
        else word g (bn - ndirect))
      (copy_in-other buffer tot count b o d (ip.addrs ndirect) ne)

copy_in-in_use :
    (buffer : ℕ → ℕ) (tot count b o : ℕ) (d : Disk)
    → ((copy_in buffer tot count b o d).in_use ≡ d.in_use)
      × ((copy_in buffer tot count b o d).size ≡ d.size)
unfolding copy_in
copy_in-in_use buffer tot count b o d = (refl, refl)

moved-Owns :
    (ip : Inode) (d e : Disk)
    → (e.in_use ≡ d.in_use) × (e.size ≡ d.size)
    → ((bn : ℕ) → block_of ip e bn ≡ block_of ip d bn)
    → Owns ip d
    → Owns ip e
moved-Owns ip d e (uses, size) same h = record {
  boot = ap (λ g. g 0) uses ∙ h.boot;
  uint = ground (arith, size, h.uint);
  indirect = ap (λ g. g (ip.addrs ndirect)) uses ∙ h.indirect;
  used = λ bn lt. ap (λ g. g (block_of ip e bn)) uses ∙ (ap d.in_use (same bn) ∙ h.used bn lt);
  apart = λ bn lt nz q. h.apart bn lt (λ z. nz (same bn ∙ z)) (sym (same bn) ∙ q);
  once = λ bn bm lt lm nz q.
      h.once bn bm lt lm (λ z. nz (same bn ∙ z)) (sym (same bn) ∙ (q ∙ same bm));
}

pub copy_in-Owns :
    (buffer : ℕ → ℕ) (tot count b o : ℕ) (ip : Inode) (d : Disk)
    → b ≢ ip.addrs ndirect
    → Owns ip d
    → Owns ip (copy_in buffer tot count b o d)
copy_in-Owns buffer tot count b o ip d ne h =
    let same : (bn : ℕ) → block_of ip (copy_in buffer tot count b o d) bn ≡ block_of ip d bn =
      λ bn. copy_in-block_of buffer tot count b o ip d bn ne in
    moved-Owns ip d (copy_in buffer tot count b o d) (copy_in-in_use buffer tot count b o d) same h

copy_in-bytes :
    (buffer : ℕ → ℕ) (tot count b o : ℕ) (d : Disk) (c i : ℕ)
    → (copy_in buffer tot count b o d).bytes c i
      ≡ (if b == c && (leb o i && ltb i (o + count)) then buffer (tot + (i - o)) else d.bytes c i)
unfolding copy_in
copy_in-bytes buffer tot count b o d c i = ground arith

-- A copy within the block that holds offset `off` changes these bytes of the file.
pub copy_in-new :
    (buffer : ℕ → ℕ) (tot count b off : ℕ) (ip : Inode) (d : Disk)
    → b ≢ 0
    → b ≢ ip.addrs ndirect
    → block_of ip d (off / bsize) ≡ b
    → count ≤ bsize - off % bsize
    → (x : ℕ) → off ≤ x
    → x < off + count
    → file_byte ip (copy_in buffer tot count b (off % bsize) d) x ≡ buffer (tot + (x - off))
unfolding file_byte
copy_in-new buffer tot count b off ip d nz own at fits x l u =
    let e = copy_in buffer tot count b (off % bsize) d in
    let q : x / bsize ≡ off / bsize = omega arith in
    let here : block_of ip e (x / bsize) ≡ b =
      copy_in-block_of buffer tot count b (off % bsize) ip d (x / bsize) own
      ∙ (ap (block_of ip d) q ∙ at) in
    let index : x % bsize - off % bsize ≡ x - off = omega arith in
    ground (
      arith,
      nz,
      here,
      copy_in-bytes buffer tot count b (off % bsize) d b (x % bsize),
      ap (λ w. buffer (tot + w)) index,
      l,
      u,
      q,
    )

pub copy_in-old :
    (buffer : ℕ → ℕ) (tot count b off : ℕ) (ip : Inode) (d : Disk)
    → Owns ip d
    → off < maxfile * bsize
    → b ≢ 0
    → b ≢ ip.addrs ndirect
    → block_of ip d (off / bsize) ≡ b
    → count ≤ bsize - off % bsize
    → (x : ℕ) → x < maxfile * bsize
    → (x < off) ⊎ (off + count ≤ x)
    → file_byte ip (copy_in buffer tot count b (off % bsize) d) x ≡ file_byte ip d x
unfolding file_byte
copy_in-old buffer tot count b off ip d h lt nz own at fits x l out =
    let e = copy_in buffer tot count b (off % bsize) d in
    let c = block_of ip d (x / bsize) in
    let same : block_of ip e (x / bsize) ≡ c =
      copy_in-block_of buffer tot count b (off % bsize) ip d (x / bsize) own in
    let bytes = copy_in-bytes buffer tot count b (off % bsize) d c (x % bsize) in
    elim (ℕ_discrete (x / bsize) (off / bsize)) [
      | yes q ↦
          let outside : (x % bsize < off % bsize) ⊎ (off % bsize + count ≤ x % bsize) = elim out [
            | inl a ↦ inl (omega arith)
            | inr a ↦ inr (omega arith)
          ] in
          ground (arith, same, bytes, outside)
      | no ne ↦ ground (
        arith,
        same,
        bytes,
        at,
        nz,
        ne,
        h.once (x / bsize) (off / bsize) (omega arith) (omega arith),
      )
    ]
