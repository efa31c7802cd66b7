-- ===== src/Kernel/Fs/Content/Roundtrip.antt =====
-- kernel/fs.c: what readi returns, also after writei.
use mathlib.Core.Path.{subst}
use os_network_concurrency_s.Common.{
  ℕ, ◌+◌, ◌-◌, ◌/◌, ◌^◌, ◌≡◌, ◌≢◌, ◌<◌, ◌≤◌, min, Option, none, some, ltb, leb, if◌then◌else◌, ◌||◌,
  arith, refl, sym, ◌∙◌, ap, inl, inr, dec_lt, if-all, add_uint,
}
use os_network_concurrency_s.Kernel.Fs.Blocks.{Disk, Inode, bsize}
use os_network_concurrency_s.Kernel.Fs.Blocks.Bmap.{block_of, Owns}
use os_network_concurrency_s.Kernel.Fs.Content.{Read, read_from, cut, readi}
use os_network_concurrency_s.Kernel.Fs.Content.Bytes.{file_byte}
use os_network_concurrency_s.Kernel.Fs.Content.Writes.{max_size}
use os_network_concurrency_s.Kernel.Fs.Content.Reads.{Answered, Reads, stop-Reads, read_from-Reads}

-- How many bytes of a file of that size `readi` looks for.
abbrev pub available : (size off n : ℕ) → ℕ
available size off n = if ltb size off || leb (2 ^ 32) (off + n) then 0 else min n (size - off)

pub readi-Reads :
    (reach : ℕ → ℕ) (off n : ℕ) (buffer : ℕ → ℕ) (ip : Inode) (d : Disk)
    → Owns ip d
    → ip.size ≤ max_size
    → off < 2 ^ 32
    → n < 2 ^ 32
    → (r : Read) × ((readi reach off n buffer ip d ≡ some r)
        × Reads reach (available ip.size off n) 0 off ip d buffer r)
unfolding readi
readi-Reads reach off n buffer ip d h small lo ln =
    let m = available ip.size off n in
    let P : Option Read → Type 0 =
      λ o. (r : Read) × ((o ≡ some r) × Reads reach m 0 off ip d buffer r) in
    if-all P (ltb ip.size off || ltb (add_uint off n) off) _ _
      (λ b. (
        _,
        (
          refl,
          stop-Reads reach m 0 off ip ip d d buffer h (λ x l. refl) (λ bn l z. z) refl refl
              (omega arith) (inl (ground (arith, b, lo, ln))),
        ),
      ))
      (λ ok.
        let same : cut ip.size off n ≡ m = ground (arith, ok, lo, ln) in
        let room : off + (m - 0) ≤ max_size = ground (arith, ok, small, lo, ln) in
        subst (λ c. P (read_from reach c c 0 off buffer ip d)) (sym same)
          (read_from-Reads reach m m 0 off buffer ip d h (omega arith) (omega arith) room))

pub read_back :
    (to : ℕ → ℕ) (off t : ℕ) (e : Disk) (jp : Inode) (there given : ℕ → ℕ) (r : Read) (o : Option ℕ)
    → ((k : ℕ) → bsize ≤ to k)
    → ((x : ℕ) → off ≤ x → x < off + t → block_of jp e (x / bsize) ≢ 0)
    → ((k : ℕ) → k < t → file_byte jp e (off + k) ≡ given k)
    → Answered to t 0 off jp e there r o
    → (o ≡ some t) × ((k : ℕ) → k < t → r.buffer k ≡ given k)
read_back to off t e jp there given r none whole present written (k, (l, short)) =
    absurd (ground (arith, short, whole k))
read_back to off t e jp there given r (some u) whole present written ((low, high), (read, end)) =
    let all : u ≡ t = elim (dec_lt u t) [
      | yes l ↦ elim end [
        | inl f ↦ f
        | inr f ↦ absurd (present (off + (u - 0)) (omega arith) (omega arith) f.1)
      ]
      | no l ↦ omega arith
    ] in
    (
      ap some all,
      λ k l.
          read k (omega arith) (omega arith)
          ∙ (ap (λ y. file_byte jp e (off + y)) (omega arith) ∙ written k l),
    )
