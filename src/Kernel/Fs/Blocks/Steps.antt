-- ===== src/Kernel/Fs/Blocks/Steps.antt =====
-- kernel/fs.c: the steps of bmap.
use mathlib.Core.Path.{subst}
use os_network_concurrency_s.Common.{
  ℕ, ◌+◌, ◌-◌, ◌*◌, ◌/◌, ◌%◌, ◌^◌, ◌≡◌, ◌≢◌, ◌<◌, Option, some, ltb, ◌==◌, update, true, arith,
  refl, sym, ◌∙◌, ap, if-all,
}
use os_network_concurrency_s.Kernel.Fs.Blocks.{
  Disk, Inode, Mapping, word, set_word, byte_of, entries, ndirect, nindirect, maxfile, balloc,
  store_addr, ensure_addr, store_entry, ensure_entry, bmap,
}
use os_network_concurrency_s.Kernel.Fs.Blocks.Bmap.{
  kept_entries, Full, block_of, Owns, Allocated, balloc-Allocated, Mapped, still-Mapped,
  grown-Mapped, indirect-Owns,
}

store_addr-Mapped :
    (bn : ℕ) (ip : Inode) (d : Disk) (r : ℕ × Disk)
    → bn < ndirect
    → Owns ip d
    → ip.addrs bn ≡ 0
    → Allocated d r.0 r.1
    → Mapped bn ip d (store_addr bn ip r)
unfolding store_addr block_of
store_addr-Mapped bn ip d (a, e) lt h z al =
    if-all (Mapped bn ip d) (a == 0) _ _
      (λ t.
        subst (λ x. Mapped bn ip d (record { addr = 0; inode = ip; disk = x }))
          (sym (al.nothing (ground (arith, t))))
          (still-Mapped bn 0 ip d h (ground (arith, lt, z)) (λ _. al.full (ground (arith, t)))))
      (λ t.
        let ne : a ≢ 0 = λ q. absurd (ground (arith, q, t)) in
        grown-Mapped bn a ip (record ip { addrs = update ip.addrs bn a }) d e e (ground (arith, lt))
          ne h al (λ b. refl) refl (λ b i n. refl) (ground (arith, lt)) refl refl
          (ground (arith, lt, z)) (ground (arith, lt))
          (λ bm l q. ground (
            arith,
            q,
            l,
            lt,
            ap (λ g. g (bm - ndirect))
                (kept_entries d a e al (ip.addrs ndirect)
                  (λ w. absurd (ground (arith, w, h.indirect, al.fresh ne)))),
          )))

direct-Mapped :
    (bn : ℕ) (ip : Inode) (d : Disk)
    → bn < ndirect
    → Owns ip d
    → Mapped bn ip d (ensure_addr bn ip d)
unfolding ensure_addr block_of
direct-Mapped bn ip d lt h =
    if-all (Mapped bn ip d) (ip.addrs bn == 0) (store_addr bn ip (balloc d)) _
      (λ e.
        store_addr-Mapped bn ip d (balloc d) lt h (ground (arith, e)) (balloc-Allocated d h.boot))
      (λ e.
        still-Mapped bn (ip.addrs bn) ip d h (ground (arith, lt))
          (λ q. absurd (ground (arith, e, q))))

-- What the allocation of the indirect block leaves: the same file.
record Prepared (ip : Inode) (d : Disk) (m : Mapping) : Type 0 where
  owns : Owns m.inode m.disk
  found : m.inode.addrs ndirect ≡ m.addr
  same : (bm : ℕ) → bm < maxfile → block_of m.inode m.disk bm ≡ block_of ip d bm
  kept_bytes : (b i : ℕ) → d.in_use b ≡ true → m.disk.bytes b i ≡ d.bytes b i
  still_used : (b : ℕ) → d.in_use b ≡ true → m.disk.in_use b ≡ true
  same_size : m.inode.size ≡ ip.size
  same_type : m.inode.type ≡ ip.type
  full : m.addr ≡ 0 → Full m.disk

still-Prepared :
    (a : ℕ) (ip : Inode) (d : Disk)
    → Owns ip d
    → ip.addrs ndirect ≡ a
    → (a ≡ 0 → Full d)
    → Prepared ip d (record { addr = a; inode = ip; disk = d })
still-Prepared a ip d h f w = record {
  owns = h;
  found = f;
  same = λ bm lt. refl;
  kept_bytes = λ b i u. refl;
  still_used = λ b u. u;
  same_size = refl;
  same_type = refl;
  full = w;
}

indirect-same :
    (a bm : ℕ) (ip : Inode) (d e : Disk)
    → ip.addrs ndirect ≡ 0
    → a ≢ 0
    → Allocated d a e
    → block_of (record ip { addrs = update ip.addrs ndirect a }) e bm ≡ block_of ip d bm
unfolding block_of
indirect-same a bm ip d e z ne al = ground (arith, ne, z, al.zero_entries ne (bm - ndirect))

stored-Prepared :
    (a : ℕ) (ip : Inode) (d e : Disk)
    → Owns ip d
    → ip.addrs ndirect ≡ 0
    → a ≢ 0
    → Allocated d a e
    → Prepared ip d
        (record { addr = a; inode = record ip { addrs = update ip.addrs ndirect a }; disk = e })
stored-Prepared a ip d e h z ne al = record {
  owns =
      indirect-Owns a ip (record ip { addrs = update ip.addrs ndirect a }) d e h (al.fresh ne)
        al.marked al.same_size (ground arith) (λ bm lt. indirect-same a bm ip d e z ne al);
  found = ground arith;
  same = λ bm lt. indirect-same a bm ip d e z ne al;
  kept_bytes =
      λ b i u. ap (λ g. g i) (al.kept_bytes b (λ q. absurd (ground (arith, q, u, al.fresh ne))));
  still_used = λ b u. ground (arith, u, al.marked b);
  same_size = refl;
  same_type = refl;
  full = λ q. absurd (ne q);
}

store_addr-Prepared :
    (ip : Inode) (d : Disk) (r : ℕ × Disk)
    → Owns ip d
    → ip.addrs ndirect ≡ 0
    → Allocated d r.0 r.1
    → Prepared ip d (store_addr ndirect ip r)
unfolding store_addr
store_addr-Prepared ip d (a, e) h z al =
    if-all (Prepared ip d) (a == 0) _ _
      (λ t.
        subst (λ x. Prepared ip d (record { addr = 0; inode = ip; disk = x }))
          (sym (al.nothing (ground (arith, t))))
          (still-Prepared 0 ip d h z (λ _. al.full (ground (arith, t)))))
      (λ t. stored-Prepared a ip d e h z (λ q. absurd (ground (arith, q, t))) al)

indirect-Prepared : (ip : Inode) (d : Disk) → Owns ip d → Prepared ip d (ensure_addr ndirect ip d)
unfolding ensure_addr
indirect-Prepared ip d h =
    if-all (Prepared ip d) (ip.addrs ndirect == 0) (store_addr ndirect ip (balloc d)) _
      (λ e. store_addr-Prepared ip d (balloc d) h (ground (arith, e)) (balloc-Allocated d h.boot))
      (λ e. still-Prepared (ip.addrs ndirect) ip d h refl (λ q. absurd (ground (arith, e, q))))

stored_byte : (block : ℕ → ℕ) (j a k : ℕ) → k < 4 → set_word block j a (4 * j + k) ≡ byte_of a k
unfolding set_word
stored_byte block j a k lt =
    let q : (4 * j + k) / 4 ≡ j = omega arith in
    let r : (4 * j + k) % 4 ≡ k = omega arith in ground (arith, q, r)

word_here :
    (e : Disk) (b : ℕ) (f : ℕ → ℕ) (j : ℕ)
    → entries (record e { bytes = update e.bytes b f }) b j ≡ word f j
word_here e b f j =
    if-all (λ g. word g j ≡ word f j) (b == b) f (e.bytes b) (λ _. refl)
      (λ q. absurd (ground (arith, q)))

stored_word :
    (e : Disk) (b j a : ℕ)
    → a < 2 ^ 32
    → entries (record e { bytes = update e.bytes b (set_word (e.bytes b) j a) }) b j ≡ a
unfolding word
stored_word e b j a lt =
    let f = set_word (e.bytes b) j a in
    let bytes = stored_byte (e.bytes b) j a in
    word_here e b f j
    ∙ ground (
      arith,
      lt,
      bytes 0 (omega arith),
      bytes 1 (omega arith),
      bytes 2 (omega arith),
      bytes 3 (omega arith),
    )

other_word :
    (e : Disk) (b j a k : ℕ)
    → k ≢ j
    → entries (record e { bytes = update e.bytes b (set_word (e.bytes b) j a) }) b k ≡ entries e b k
unfolding word set_word
other_word e b j a k ne = word_here e b (set_word (e.bytes b) j a) k ∙ ground (arith, ne)

store_entry-Mapped :
    (b j : ℕ) (ip : Inode) (d : Disk) (r : ℕ × Disk)
    → j < nindirect
    → Owns ip d
    → ip.addrs ndirect ≡ b
    → b ≢ 0
    → entries d b j ≡ 0
    → Allocated d r.0 r.1
    → Mapped (j + ndirect) ip d (store_entry b j ip r)
unfolding store_entry block_of
store_entry-Mapped b j ip d (a, e) lt h ind nb z al =
    if-all (Mapped (j + ndirect) ip d) (a == 0) _ _
      (λ t.
        subst (λ x. Mapped (j + ndirect) ip d (record { addr = 0; inode = ip; disk = x }))
          (sym (al.nothing (ground (arith, t))))
          (still-Mapped (j + ndirect) 0 ip d h (ground (arith, ind, z))
            (λ _. al.full (ground (arith, t)))))
      (λ t.
        let ne : a ≢ 0 = λ q. absurd (ground (arith, q, t)) in
        let apart : a ≢ b = λ w. absurd (ground (arith, w, ind, h.indirect, al.fresh ne)) in
        grown-Mapped (j + ndirect) a ip ip d e
          (record e { bytes = update e.bytes b (set_word (e.bytes b) j a) }) (ground (arith, lt)) ne
          h al (λ c. refl) refl (λ c i n. ground (arith, n, ind)) refl refl refl
          (ground (arith, ind, z))
          (ground (arith, lt, ind, nb, stored_word e b j a (ground (arith, al.low, h.uint))))
          (λ bm l q. ground (
            arith,
            q,
            l,
            lt,
            ind,
            nb,
            other_word e b j a (bm - ndirect),
            ap (λ g. g (bm - ndirect)) (kept_entries d a e al b apart),
          )))

ensure_entry-Mapped :
    (j : ℕ) (m : Mapping)
    → j < nindirect
    → Owns m.inode m.disk
    → m.inode.addrs ndirect ≡ m.addr
    → (m.addr ≡ 0 → Full m.disk)
    → Mapped (j + ndirect) m.inode m.disk (ensure_entry j m)
unfolding ensure_entry block_of
ensure_entry-Mapped j m lt h ind full =
    let P = Mapped (j + ndirect) m.inode m.disk in
    if-all P (m.addr == 0) m _
      (λ z. still-Mapped (j + ndirect) m.addr m.inode m.disk h (ground (arith, ind, z)) full)
      (λ nz.
        if-all P (entries m.disk m.addr j == 0) (store_entry m.addr j m.inode (balloc m.disk)) _
          (λ z.
            store_entry-Mapped m.addr j m.inode m.disk (balloc m.disk) lt h ind
              (λ q. absurd (ground (arith, q, nz))) (ground (arith, z))
              (balloc-Allocated m.disk h.boot))
          (λ z.
            still-Mapped (j + ndirect) (entries m.disk m.addr j) m.inode m.disk h
              (ground (arith, ind, nz)) (λ q. absurd (ground (arith, z, q)))))

after-Prepared :
    (bn : ℕ) (ip : Inode) (d : Disk) (m n : Mapping)
    → bn < maxfile
    → Owns ip d
    → Prepared ip d m
    → Mapped bn m.inode m.disk n
    → Mapped bn ip d n
after-Prepared bn ip d m n lt h p q = record {
  owns = q.owns;
  found = q.found;
  kept = λ bm l c. ground (arith, c, p.same bm l, q.kept bm l);
  kept_bytes = λ b i u n. q.kept_bytes b i (p.still_used b u) n ∙ p.kept_bytes b i u;
  new_zero = λ z nz i. q.new_zero (p.same bn lt ∙ z) nz i;
  still_used = λ b u. q.still_used b (p.still_used b u);
  same_size = q.same_size ∙ p.same_size;
  same_type = q.same_type ∙ p.same_type;
  full = q.full;
}

indirect-Mapped :
    (j : ℕ) (ip : Inode) (d : Disk)
    → j < nindirect
    → Owns ip d
    → Mapped (j + ndirect) ip d (ensure_entry j (ensure_addr ndirect ip d))
indirect-Mapped j ip d lt h =
    let p = indirect-Prepared ip d h in
    after-Prepared (j + ndirect) ip d (ensure_addr ndirect ip d) _ (ground (arith, lt)) h p
      (ensure_entry-Mapped j (ensure_addr ndirect ip d) lt p.owns p.found p.full)

pub bmap-Mapped :
    (bn : ℕ) (ip : Inode) (d : Disk)
    → bn < maxfile
    → Owns ip d
    → (m : Mapping) × ((bmap bn ip d ≡ some m) × Mapped bn ip d m)
unfolding bmap
bmap-Mapped bn ip d lt h =
    let P : Option Mapping → Type 0 = λ o. (m : Mapping) × ((o ≡ some m) × Mapped bn ip d m) in
    if-all P (ltb bn ndirect) _ _
      (λ e. (ensure_addr bn ip d, (refl, direct-Mapped bn ip d (ground (arith, e)) h)))
      (λ e.
        if-all P (ltb (bn - ndirect) nindirect) _ _
          (λ f.
            let back : bn - ndirect + ndirect ≡ bn = ground (arith, e) in
            (
              ensure_entry (bn - ndirect) (ensure_addr ndirect ip d),
              (
                refl,
                subst (λ x. Mapped x ip d (ensure_entry (bn - ndirect) (ensure_addr ndirect ip d)))
                    back (indirect-Mapped (bn - ndirect) ip d (ground (arith, f)) h),
              ),
            ))
          (λ f. absurd (ground (arith, e, f, lt))))
