-- ===== src/Kernel/Bio/Unique.antt =====
-- kernel/bio.c: bget, and that no block is cached twice.
use os_network_concurrency_s.Common.{
  ℕ, ◌≡◌, ◌≢◌, Option, none, some, ◌==◌, false, arith, refl, ℕ_discrete, sym, ◌∙◌, add_uint, if-all,
  ap,
}
use os_network_concurrency_s.Kernel.Bio.{
  Buf, Cache, with_buf, find_cached, find_unused, recycle, bget_from, bget,
}
use os_network_concurrency_s.Kernel.Bio.Find.{
  In, Holds, find_cached-some, find_cached-none, find_unused-some, find_unused-none, InUse-In,
  LastUnused, LastUnused-In,
}

module _ {D : Type 0} where
  -- Device 0 is the one of the buffers that have not been used yet.
  abbrev pub IsUnique : Cache D → Type 0
  IsUnique s =
      (i j : ℕ)
      → In i s.order
      → In j s.order
      → (s.buf i).dev ≢ 0
      → (s.buf i).dev ≡ (s.buf j).dev
      → (s.buf i).blockno ≡ (s.buf j).blockno
      → i ≡ j

  -- What a `bget` that returns buffer `b` does.
  pub record Got (dev blockno : ℕ) (s : Cache D) (b : ℕ) (t : Cache D) : Type 0 where
    pub listed : In b s.order
    pub holds : Holds t.buf dev blockno b
    pub unique : IsUnique t
    pub same_order : t.order ≡ s.order
    pub others : (c : ℕ) → c ≢ b → t.buf c ≡ s.buf c
    pub cached :
        (c : ℕ)
        → In c s.order
        → Holds s.buf dev blockno c
        → (c ≡ b) × (t.buf b ≡ record (s.buf b) { refcnt = add_uint (s.buf b).refcnt 1 })
    pub recycled :
        ((c : ℕ) → In c s.order → ¬ Holds s.buf dev blockno c)
        → LastUnused s.buf b s.order × (((t.buf b).refcnt ≡ 1) × ((t.buf b).valid ≡ false))

  -- The outcome of `bget`, the panic included.
  abbrev pub BgetEnds : ℕ → ℕ → Cache D → Option (ℕ × Cache D) → Type 0
  BgetEnds dev blockno s none =
      (b : ℕ) → In b s.order → ((s.buf b).refcnt ≢ 0) × ¬ Holds s.buf dev blockno b
  BgetEnds dev blockno s (some (b, t)) = Got dev blockno s b t

  hit-Got :
      (dev blockno b : ℕ) (s : Cache D)
      → IsUnique s
      → dev ≢ 0
      → In b s.order
      → Holds s.buf dev blockno b
      → BgetEnds dev blockno s (bget_from dev blockno (some b) s)
  unfolding bget_from
  hit-Got dev blockno b s u ne i h =
      let v = record (s.buf b) { refcnt = add_uint (s.buf b).refcnt 1 } in
      let t = with_buf b v s in
      let dev_same : (c : ℕ) → (t.buf c).dev ≡ (s.buf c).dev = λ c.
        if-all (λ (x : Buf D). x.dev ≡ (s.buf c).dev) (b == c) v (s.buf c)
          (λ same. ap (λ x. (s.buf x).dev) (ground (arith, same))) (λ _. refl) in
      let block_same : (c : ℕ) → (t.buf c).blockno ≡ (s.buf c).blockno = λ c.
        if-all (λ (x : Buf D). x.blockno ≡ (s.buf c).blockno) (b == c) v (s.buf c)
          (λ same. ap (λ x. (s.buf x).blockno) (ground (arith, same))) (λ _. refl) in
      record {
        listed = i;
        holds = ground (arith, h);
        unique = λ j k hj hk nz e e'.
            u j k hj hk (ground (arith, nz, dev_same j)) (sym (dev_same j) ∙ e ∙ dev_same k)
              (sym (block_same j) ∙ e' ∙ block_same k);
        same_order = refl;
        others = λ c other. ground (arith, other);
        cached = λ c hc held. (
          u c b hc i (ground (arith, held, ne)) (held.0 ∙ sym h.0) (held.1 ∙ sym h.1),
          ground arith,
        );
        recycled = λ nowhere. absurd (nowhere b i h);
      }

  miss-Got :
      (dev blockno b : ℕ) (s : Cache D)
      → IsUnique s
      → LastUnused s.buf b s.order
      → ((c : ℕ) → In c s.order → ¬ Holds s.buf dev blockno c)
      → BgetEnds dev blockno s (recycle dev blockno (some b) s)
  unfolding recycle
  miss-Got dev blockno b s u l nowhere = record {
    listed = LastUnused-In s.buf b s.order l;
    holds = ground arith;
    unique = λ j k hj hk nz e e'. elim (ℕ_discrete b j) [
      | yes at_j ↦ elim (ℕ_discrete b k) [
        | yes at_k ↦ sym at_j ∙ at_k
        | no other ↦ absurd (nowhere k hk (ground (arith, at_j, other, e, e')))
      ]
      | no not_j ↦ elim (ℕ_discrete b k) [
        | yes at_k ↦ absurd (nowhere j hj (ground (arith, at_k, not_j, e, e')))
        | no other ↦
            u j k hj hk (ground (arith, not_j, nz)) (ground (arith, not_j, other, e))
              (ground (arith, not_j, other, e'))
      ]
    ];
    same_order = refl;
    others = λ c other. ground (arith, other);
    cached = λ c hc held. absurd (nowhere c hc held);
    recycled = λ _. (l, (ground arith, ground arith));
  }

  recycle-BgetEnds :
      (dev blockno : ℕ) (s : Cache D) (o : Option ℕ)
      → find_unused s.buf s.order ≡ o
      → IsUnique s
      → ((c : ℕ) → In c s.order → ¬ Holds s.buf dev blockno c)
      → BgetEnds dev blockno s (recycle dev blockno o s)
  unfolding recycle
  recycle-BgetEnds dev blockno s none e u nowhere =
      λ b i. (InUse-In s.buf b s.order (find_unused-none s.buf s.order e) i, nowhere b i)
  recycle-BgetEnds dev blockno s (some b) e u nowhere =
      miss-Got dev blockno b s u (find_unused-some s.buf b s.order e) nowhere

  bget_from-BgetEnds :
      (dev blockno : ℕ) (s : Cache D) (o : Option ℕ)
      → find_cached dev blockno s.buf s.order ≡ o
      → IsUnique s
      → dev ≢ 0
      → BgetEnds dev blockno s (bget_from dev blockno o s)
  unfolding bget_from
  bget_from-BgetEnds dev blockno s none e u ne =
      recycle-BgetEnds dev blockno s (find_unused s.buf s.order) refl u
        (λ c i. find_cached-none s.buf dev blockno c s.order e i)
  bget_from-BgetEnds dev blockno s (some b) e u ne =
      let found = find_cached-some s.buf dev blockno b s.order e in
      hit-Got dev blockno b s u ne found.0 found.1

  -- In a cache that holds no block twice, a `bget` for a device other than 0 returns a buffer of the
  -- list that has the block's device and number, changes no other buffer and no order, and again no
  -- block is held twice. If a buffer had the block, it is that one, with one reference more;
  -- otherwise it is the unused buffer nearest to the end of the list, with one reference and no
  -- content. It panics only if all buffers are in use and none has the block.
  pub bget-BgetEnds :
      (dev blockno : ℕ) (s : Cache D)
      → IsUnique s
      → dev ≢ 0
      → BgetEnds dev blockno s (bget dev blockno s)
  unfolding bget
  bget-BgetEnds dev blockno s u ne =
      bget_from-BgetEnds dev blockno s (find_cached dev blockno s.buf s.order) refl u ne
