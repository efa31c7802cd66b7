-- ===== src/Kernel/Fs/Content/Reads.antt =====
-- kernel/fs.c: the loop of readi.
use mathlib.Core.Path.{subst}
use os_network_concurrency_s.Common.{
  ℕ, zero, suc, ◌+◌, ◌-◌, ◌/◌, ◌%◌, ◌≡◌, ◌≢◌, ◌<◌, ◌≤◌, Option, none, some, ltb, leb, ◌==◌, arith,
  refl, sym, ◌∙◌, ap, ◌⊎◌, inl, inr, ℕ_discrete, dec_lt, if-all,
}
use os_network_concurrency_s.Kernel.Fs.Blocks.{Disk, Inode, bsize, maxfile}
use os_network_concurrency_s.Kernel.Fs.Blocks.Bmap.{Full, block_of, Owns}
use os_network_concurrency_s.Kernel.Fs.Blocks.Steps.{bmap-Mapped}
use os_network_concurrency_s.Kernel.Fs.Content.{chunk, Read, copy_out, read_round, read_from}
use os_network_concurrency_s.Kernel.Fs.Content.Bytes.{file_byte, bmap-file_byte}
use os_network_concurrency_s.Kernel.Fs.Content.Writes.{max_size}

-- How the loop of `readi` ends, by its answer: the bytes are in the buffer.
abbrev pub Answered :
    (reach : ℕ → ℕ) (n tot off : ℕ) → Inode → Disk → (ℕ → ℕ) → Read → Option ℕ → Type 0
Answered reach n tot off ip d buffer r none = (k : ℕ) × ((k < n) × (reach k < bsize))
Answered reach n tot off ip d buffer r (some t) =
    ((tot ≤ t) × (t ≤ n))
    × (((k : ℕ) → tot ≤ k → k < t → r.buffer k ≡ file_byte ip d (off + (k - tot)))
        × ((t ≡ n) ⊎ (Full r.disk × (block_of ip d ((off + (t - tot)) / bsize) ≡ 0))))

-- What the loop of `readi` leaves, from index `tot` of the buffer and offset `off` on.
pub record Reads (reach : ℕ → ℕ) (n tot off : ℕ) (ip : Inode) (d : Disk) (buffer : ℕ → ℕ) (r : Read)
    : Type 0 where
  pub owns : Owns r.inode r.disk
  pub same : (x : ℕ) → x < max_size → file_byte r.inode r.disk x ≡ file_byte ip d x
  pub blocks : (bn : ℕ) → bn < maxfile → block_of r.inode r.disk bn ≡ 0 → block_of ip d bn ≡ 0
  pub same_size : r.inode.size ≡ ip.size
  pub same_type : r.inode.type ≡ ip.type
  pub before : (k : ℕ) → k < tot → r.buffer k ≡ buffer k
  pub answer : Answered reach n tot off ip d buffer r r.answer

pub stop-Reads :
    (reach : ℕ → ℕ) (n tot off : ℕ) (ip jp : Inode) (d e : Disk) (buffer : ℕ → ℕ)
    → Owns jp e
    → ((x : ℕ) → x < max_size → file_byte jp e x ≡ file_byte ip d x)
    → ((bn : ℕ) → bn < maxfile → block_of jp e bn ≡ 0 → block_of ip d bn ≡ 0)
    → jp.size ≡ ip.size
    → jp.type ≡ ip.type
    → tot ≤ n
    → (tot ≡ n) ⊎ (Full e × (block_of ip d (off / bsize) ≡ 0))
    → Reads reach n tot off ip d buffer
        (record { answer = some tot; buffer = buffer; inode = jp; disk = e })
stop-Reads reach n tot off ip jp d e buffer h same blocks size kind le end =
    let here : off ≡ off + (tot - tot) = omega arith in
    record {
      owns = h;
      same = same;
      blocks = blocks;
      same_size = size;
      same_type = kind;
      before = λ k l. refl;
      answer = (
        (omega arith, le),
        (
          λ k l u. absurd (ground (arith, l, u)),
          elim end [
            | inl q ↦ inl q
            | inr q ↦ inr (q.0, subst (λ o. block_of ip d (o / bsize) ≡ 0) here q.1)
          ],
        ),
      );
    }

copy_out-new :
    (buffer : ℕ → ℕ) (tot count b o : ℕ) (d : Disk) (i : ℕ)
    → tot ≤ i
    → i < tot + count
    → copy_out buffer tot count b o d i ≡ d.bytes b (o + (i - tot))
unfolding copy_out
copy_out-new buffer tot count b o d i l u = ground (arith, l, u)

copy_out-old :
    (buffer : ℕ → ℕ) (tot count b o : ℕ) (d : Disk) (i : ℕ)
    → i < tot
    → copy_out buffer tot count b o d i ≡ buffer i
unfolding copy_out
copy_out-old buffer tot count b o d i l = ground (arith, l)

block-file_byte :
    (ip : Inode) (d : Disk) (b off j : ℕ)
    → b ≢ 0
    → block_of ip d (off / bsize) ≡ b
    → j < bsize - off % bsize
    → d.bytes b (off % bsize + j) ≡ file_byte ip d (off + j)
unfolding file_byte
block-file_byte ip d b off j nz at l =
    let q : (off + j) / bsize ≡ off / bsize = omega arith in
    let i : (off + j) % bsize ≡ off % bsize + j = omega arith in
    ground (arith, nz, at, ap (block_of ip d) q, ap (d.bytes b) i)

module _ (reach : ℕ → ℕ) (n tot off b k : ℕ) (ip jp : Inode) (d e : Disk) (buffer : ℕ → ℕ)
    (r : Read) (same : (x : ℕ) → x < max_size → file_byte jp e x ≡ file_byte ip d x)
    (blocks : (bn : ℕ) → bn < maxfile → block_of jp e bn ≡ 0 → block_of ip d bn ≡ 0)
    (size : jp.size ≡ ip.size) (kind : jp.type ≡ ip.type) (room : off + (n - tot) ≤ max_size)
    (lt : tot < n) (nz : b ≢ 0) (at : block_of jp e (off / bsize) ≡ b)
    (q : k ≡ chunk n tot off) where
  copied-byte :
      (i : ℕ)
      → tot ≤ i
      → i < tot + k
      → copy_out buffer tot k b (off % bsize) e i ≡ file_byte ip d (off + (i - tot))
  copied-byte i l u =
      copy_out-new buffer tot k b (off % bsize) e i l u
      ∙ (block-file_byte jp e b off (i - tot) nz at (omega arith)
          ∙ same (off + (i - tot)) (omega arith))

  copied-Answered :
      (o : Option ℕ)
      → ((i : ℕ) → i < tot + k → r.buffer i ≡ copy_out buffer tot k b (off % bsize) e i)
      → Answered reach n (tot + k) (off + k) jp e (copy_out buffer tot k b (off % bsize) e) r o
      → Answered reach n tot off ip d buffer r o
  copied-Answered none before a = a
  copied-Answered (some t) before ((low, high), (read, end)) = (
    (omega arith, high),
    (
      λ i l u. elim (dec_lt i (tot + k)) [
        | yes s ↦ before i s ∙ copied-byte i l s
        | no s ↦
            read i (omega arith) u
            ∙ (same (off + k + (i - (tot + k))) (omega arith) ∙ ap (file_byte ip d) (omega arith))
      ],
      elim end [
        | inl f ↦ inl f
        | inr f ↦ elim (ℕ_discrete t n) [
          | yes g ↦ inl g
          | no g ↦
              let x : off + k + (t - (tot + k)) ≡ off + (t - tot) = omega arith in
              inr (
                f.0,
                subst (λ y. block_of ip d (y / bsize) ≡ 0) x
                    (blocks ((off + k + (t - (tot + k))) / bsize) (omega arith) f.1),
              )
        ]
      ],
    ),
  )

  -- A copy that is whole, before the rest of the loop.
  copied-Reads :
      Reads reach n (tot + k) (off + k) jp e (copy_out buffer tot k b (off % bsize) e) r
      → Reads reach n tot off ip d buffer r
  copied-Reads w = record {
    owns = w.owns;
    same = λ x l. w.same x l ∙ same x l;
    blocks = λ bn l z. blocks bn l (w.blocks bn l z);
    same_size = w.same_size ∙ size;
    same_type = w.same_type ∙ kind;
    before = λ i l. w.before i (omega arith) ∙ copy_out-old buffer tot k b (off % bsize) e i l;
    answer = copied-Answered r.answer w.before w.answer;
  }

pub read_from-Reads :
    (reach : ℕ → ℕ) (rounds n tot off : ℕ) (buffer : ℕ → ℕ) (ip : Inode) (d : Disk)
    → Owns ip d
    → tot ≤ n
    → n ≤ tot + rounds
    → off + (n - tot) ≤ max_size
    → (r : Read) × ((read_from reach rounds n tot off buffer ip d ≡ some r)
        × Reads reach n tot off ip d buffer r)
unfolding read_from read_round
read_from-Reads reach zero n tot off buffer ip d h le enough room = (
  _,
  (
    refl,
    stop-Reads reach n tot off ip ip d d buffer h (λ x l. refl) (λ bn l z. z) refl refl le
        (inl (omega arith)),
  ),
)
read_from-Reads reach (suc rounds) n tot off buffer ip d h le enough room =
    let P : Option Read → Type 0 =
      λ o. (r : Read) × ((o ≡ some r) × Reads reach n tot off ip d buffer r) in
    let k = chunk n tot off in
    if-all P (ltb tot n) _ _
      (λ t.
        let lt : tot < n = ground (arith, t) in
        let (m, (e, p)) = bmap-Mapped (off / bsize) ip d (omega arith) h in
        let same : (x : ℕ) → x < max_size → file_byte m.inode m.disk x ≡ file_byte ip d x =
          bmap-file_byte (off / bsize) ip d m (omega arith) h p in
        let blocks : (bn : ℕ)
            → bn < maxfile
            → block_of m.inode m.disk bn ≡ 0
            → block_of ip d bn ≡ 0 =
          λ bn l z. elim (ℕ_discrete (block_of ip d bn) 0) [
            | yes w ↦ w
            | no w ↦ sym (p.kept bn l (inr w)) ∙ z
          ] in
        subst
          (λ o. P (
            read_round reach n tot off buffer o
              (λ got jp f. read_from reach rounds n (tot + k) (off + k) got jp f)))
          (sym e)
          (if-all P (m.addr == 0) _ _
            (λ z.
              let none_left : m.addr ≡ 0 = ground (arith, z) in
              (
                _,
                (
                  refl,
                  stop-Reads reach n tot off ip m.inode d m.disk buffer p.owns same blocks
                      p.same_size p.same_type le
                      (inr (
                        p.full none_left,
                        blocks (off / bsize) (omega arith) (p.found ∙ none_left),
                      )),
                ),
              ))
            (λ nz.
              let ne : m.addr ≢ 0 = λ q. absurd (ground (arith, q, nz)) in
              if-all P (leb k (reach tot)) _ _
                (λ whole.
                  let (r, (f, w)) =
                    read_from-Reads reach rounds n (tot + k) (off + k)
                      (copy_out buffer tot k m.addr (off % bsize) m.disk) m.inode m.disk p.owns
                      (omega arith) (omega arith) (omega arith) in
                  (
                    r,
                    (
                      f,
                      copied-Reads reach n tot off m.addr k ip m.inode d m.disk buffer r same blocks
                          p.same_size p.same_type room lt ne p.found refl w,
                    ),
                  ))
                (λ short. (
                  _,
                  (
                    refl,
                    record {
                      owns = p.owns;
                      same = same;
                      blocks = blocks;
                      same_size = p.same_size;
                      same_type = p.same_type;
                      before = λ i l.
                          copy_out-old buffer tot (reach tot) m.addr (off % bsize) m.disk i l;
                      answer = (tot, (lt, ground (arith, short)));
                    },
                  ),
                )))))
      (λ t. (
        _,
        (
          refl,
          stop-Reads reach n tot off ip ip d d buffer h (λ x l. refl) (λ bn l z. z) refl refl le
              (inl (ground (arith, t, le))),
        ),
      ))
