-- ===== src/Kernel/Bio/Recent.antt =====
-- kernel/bio.c: brelse and the ring of recent use, with its pointers.
use mathlib.Core.Path.{subst}
use os_network_concurrency_s.Common.{
  ℕ, ◌+◌, ◌≡◌, ◌≢◌, ◌<◌, ◌^◌, ◌⊎◌, ◌==◌, if◌then◌else◌, inl, inr, update, List, [], ◌∷◌, ◌++◌,
  arith, refl, sym, ◌∙◌, sub_uint,
}
use os_network_concurrency_s.Kernel.Bio.{Buf, nbuf}
use os_network_concurrency_s.Kernel.Bio.Find.{In}

-- `bcache.head`, beside the places of the buffers.
abbrev pub head : ℕ
head = nbuf

-- The pointers `next` and `prev` of the buffers and of the head.
pub record Links : Type 0 where
  pub next : ℕ → ℕ
  pub prev : ℕ → ℕ

abbrev pub set_next : ℕ → ℕ → Links → Links
set_next b c l = record l { next = update l.next b c }

abbrev pub set_prev : ℕ → ℕ → Links → Links
set_prev b c l = record l { prev = update l.prev b c }

-- `b->next->prev = b->prev; b->prev->next = b->next`
abbrev pub take_out : ℕ → Links → Links
take_out b l = let m = set_prev (l.next b) (l.prev b) l in set_next (m.prev b) (m.next b) m

-- `b->next = head.next; b->prev = &head; head.next->prev = b; head.next = b`
abbrev pub put_first : ℕ → Links → Links
put_first b l =
    let m = set_prev b head (set_next b (l.next head) l) in
    set_next head b (set_prev (m.next head) b m)

-- `bcache`, with its pointers.
pub record Ring (D : Type 0) : Type 0 where
  pub buf : ℕ → Buf D
  pub links : Links

-- The section of `brelse`: a buffer that is not used any more becomes the most recent one.
unfoldable pub brelse : {D : Type 0} → ℕ → Ring D → Ring D
brelse b s =
    let v = record (s.buf b) { refcnt = sub_uint (s.buf b).refcnt 1 } in
    record {
      buf = update s.buf b v;
      links = if v.refcnt == 0 then put_first b (take_out b s.links) else s.links;
    }

-- From node `a` the pointers `next` go through the list and on to the head, and `prev` goes back.
abbrev pub Runs : ℕ → List ℕ → Links → Type 0
Runs a [] l = (l.next a ≡ head) × (l.prev head ≡ a)
Runs a (c ∷ cs) l = (l.next a ≡ c) × ((l.prev c ≡ a) × Runs c cs l)

abbrev pub Distinct : List ℕ → Type 0
Distinct [] = Unit
Distinct (c ∷ cs) = ((a : ℕ) → In a cs → a ≢ c) × Distinct cs

Runs-other :
    (a : ℕ) (cs : List ℕ) (l m : Links)
    → ((x : ℕ) → In x (a ∷ cs) → m.next x ≡ l.next x)
    → ((x : ℕ) → (x ≡ head) ⊎ In x cs → m.prev x ≡ l.prev x)
    → Runs a cs l
    → Runs a cs m
Runs-other a [] l m n p (r, q) = (n a (inl refl) ∙ r, p head (inl refl) ∙ q)
Runs-other a (c ∷ cs) l m n p (r, (q, rest)) = (
  n a (inl refl) ∙ r,
  (
    p c (inr (inl refl)) ∙ q,
    Runs-other c cs l m (λ x i. n x (inr i))
        (λ x i. p x (elim i [ inl e ↦ inl e | inr j ↦ inr (inr j) ])) rest,
  ),
)

In-left : (x b : ℕ) (front back : List ℕ) → In x front → In x (front ++ (b ∷ back))
In-left x b [] back i = absurd i
In-left x b (c ∷ cs) back (inl e) = inl e
In-left x b (c ∷ cs) back (inr i) = inr (In-left x b cs back i)

In-right : (x b : ℕ) (front back : List ℕ) → In x back → In x (front ++ (b ∷ back))
In-right x b [] back i = inr i
In-right x b (c ∷ cs) back i = inr (In-right x b cs back i)

In-middle : (b : ℕ) (front back : List ℕ) → In b (front ++ (b ∷ back))
In-middle b [] back = inl refl
In-middle b (c ∷ cs) back = inr (In-middle b cs back)

-- The node before `b`.
Runs-prev :
    (a b : ℕ) (front back : List ℕ) (l : Links)
    → Runs a (front ++ (b ∷ back)) l
    → In (l.prev b) (a ∷ front)
Runs-prev a b [] back l (r, (q, rest)) = inl q
Runs-prev a b (c ∷ cs) back l (r, (q, rest)) = inr (Runs-prev c b cs back l rest)

after_first :
    (b : ℕ) (back : List ℕ) (l : Links) → Runs b back l → (l.next b ≡ head) ⊎ In (l.next b) back
after_first b [] l (r, q) = inl r
after_first b (c ∷ cs) l (r, q) = inr (inl r)

-- The node after `b`.
Runs-next :
    (a b : ℕ) (front back : List ℕ) (l : Links)
    → Runs a (front ++ (b ∷ back)) l
    → (l.next b ≡ head) ⊎ In (l.next b) back
Runs-next a b [] back l (r, (q, rest)) = after_first b back l rest
Runs-next a b (c ∷ cs) back l (r, (q, rest)) = Runs-next c b cs back l rest

-- What `take_out` leaves alone.
take_out-next : (b x : ℕ) (l : Links) → l.prev b ≢ x → (take_out b l).next x ≡ l.next x
take_out-next b x l ne = ground (arith, ne)

take_out-prev : (b x : ℕ) (l : Links) → l.next b ≢ x → (take_out b l).prev x ≡ l.prev x
take_out-prev b x l ne = ground (arith, ne)

take_out-joins_next : (b : ℕ) (l : Links) → (take_out b l).next (l.prev b) ≡ l.next b
take_out-joins_next b l = ground arith

take_out-joins_prev : (b : ℕ) (l : Links) → (take_out b l).prev (l.next b) ≡ l.prev b
take_out-joins_prev b l = ground arith

first-take_out :
    (a b : ℕ) (back : List ℕ) (l : Links)
    → Distinct (a ∷ b ∷ back)
    → ((x : ℕ) → In x (b ∷ back) → x ≢ head)
    → Runs a (b ∷ back) l
    → Runs a back (take_out b l)
first-take_out a b [] l dist nh (r, (q, (r2, q2))) = (
  subst (λ x. (take_out b l).next x ≡ head) q (take_out-joins_next b l ∙ r2),
  subst (λ x. (take_out b l).prev x ≡ a) r2 (take_out-joins_prev b l ∙ q),
)
first-take_out a b (d ∷ ds) l (na, (nb, (nd, dd))) nh (r, (q, (r2, (q2, rest)))) = (
  subst (λ x. (take_out b l).next x ≡ d) q (take_out-joins_next b l ∙ r2),
  (
    subst (λ x. (take_out b l).prev x ≡ a) r2 (take_out-joins_prev b l ∙ q),
    Runs-other d ds l (take_out b l) (λ x i. take_out-next b x l (λ e. na x (inr i) (sym e ∙ q)))
        (λ x i. take_out-prev b x l (λ e. elim i [
          | inl at_head ↦ nh d (inr (inl refl)) (sym r2 ∙ e ∙ at_head)
          | inr j ↦ nd x j (sym e ∙ r2)
        ]))
        rest,
  ),
)

Runs-take_out :
    (a b : ℕ) (front back : List ℕ) (l : Links)
    → Distinct (a ∷ (front ++ (b ∷ back)))
    → ((x : ℕ) → In x (front ++ (b ∷ back)) → x ≢ head)
    → Runs a (front ++ (b ∷ back)) l
    → Runs a (front ++ back) (take_out b l)
Runs-take_out a b [] back l dist nh runs = first-take_out a b back l dist nh runs
Runs-take_out a b (c ∷ cs) back l (na, (nc, dc)) nh (r, (q, rest)) = (
  take_out-next b a l (λ e.
        na (l.prev b)
          (elim (Runs-prev c b cs back l rest) [
            | inl u ↦ inl u
            | inr i ↦ inr (In-left (l.prev b) b cs back i)
          ])
          e)
      ∙ r,
  (
    take_out-prev b c l (λ e. elim (Runs-next c b cs back l rest) [
      | inl u ↦ nh c (inl refl) (sym e ∙ u)
      | inr i ↦ nc (l.next b) (In-right (l.next b) b cs back i) e
    ])
        ∙ q,
    Runs-take_out c b cs back l (nc, dc) (λ x i. nh x (inr i)) rest,
  ),
)

Runs-put_first :
    (b : ℕ) (cs : List ℕ) (l : Links)
    → b ≢ head
    → ((x : ℕ) → In x cs → x ≢ b)
    → ((x : ℕ) → In x cs → x ≢ head)
    → Distinct cs
    → Runs head cs l
    → Runs head (b ∷ cs) (put_first b l)
Runs-put_first b [] l nb ne nh dist (r, q) =
    (ground (arith, nb, r), (ground (arith, nb, r), (ground (arith, nb, r), ground (arith, nb, r))))
Runs-put_first b (c ∷ cs) l nb ne nh (nc, dc) (r, (q, rest)) =
    let bc = ne c (inl refl) in
    let hc = nh c (inl refl) in
    (
      ground (arith, nb, r),
      (
        ground (arith, nb, r, bc),
        (
          ground (arith, nb, r),
          (
            ground (arith, nb, r),
            Runs-other c cs l (put_first b l) (λ x i. ground (arith, nb, r, ne x i, nh x i))
                (λ x i. elim i [
                  | inl e ↦ ground (arith, nb, r, e, hc)
                  | inr j ↦ ground (arith, nb, r, ne x (inr j), nc x j)
                ])
                rest,
          ),
        ),
      ),
    )

In-rest : (x b : ℕ) (front back : List ℕ) → In x (front ++ back) → In x (front ++ (b ∷ back))
In-rest x b [] back i = inr i
In-rest x b (c ∷ cs) back (inl e) = inl e
In-rest x b (c ∷ cs) back (inr i) = inr (In-rest x b cs back i)

-- Leaving one element out.
Distinct-rest :
    (b : ℕ) (front back : List ℕ)
    → Distinct (front ++ (b ∷ back))
    → Distinct (front ++ back) × ((x : ℕ) → In x (front ++ back) → x ≢ b)
Distinct-rest b [] back (nb, d) = (d, nb)
Distinct-rest b (c ∷ cs) back (nc, d) =
    let (rest, nb) = Distinct-rest b cs back d in
    (
      (λ x i. nc x (In-rest x b cs back i), rest),
      λ x i e. elim i [ inl u ↦ nc b (In-middle b cs back) (sym e ∙ u) | inr j ↦ nb x j e ],
    )

module _ {D : Type 0} where
  -- What the release of buffer `b`, which stands between `front` and `back`, does.
  pub record Released (b : ℕ) (front back : List ℕ) (s t : Ring D) : Type 0 where
    pub one_less : (t.buf b).refcnt + 1 ≡ (s.buf b).refcnt
    pub others : (a : ℕ) → a ≢ b → t.buf a ≡ s.buf a
    pub recent : (s.buf b).refcnt ≡ 1 → Runs head (b ∷ (front ++ back)) t.links
    pub kept : (s.buf b).refcnt ≢ 1 → t.links ≡ s.links

  -- In a ring of different buffers, which the pointers run through in both directions, releasing a
  -- used buffer drops one reference to it and changes no other buffer. If it was the last
  -- reference, the pointers run, in both directions, through the released buffer first and then
  -- through the others in the order they had; if not, no pointer changes.
  pub brelse-Released :
      (b : ℕ) (front back : List ℕ) (s : Ring D)
      → Distinct (head ∷ (front ++ (b ∷ back)))
      → Runs head (front ++ (b ∷ back)) s.links
      → 0 < (s.buf b).refcnt
      → (s.buf b).refcnt < 2 ^ 32
      → Released b front back s (brelse b s)
  unfolding brelse
  brelse-Released b front back s (nh, dist) runs used small =
      let (rest, nb) = Distinct-rest b front back dist in
      record {
        one_less = ground (arith, used, small);
        others = λ a ne. ground (arith, ne);
        recent = λ one. subst (Runs head (b ∷ (front ++ back))) (sym (ground (arith, one))) (
            Runs-put_first b (front ++ back) (take_out b s.links) (nh b (In-middle b front back)) nb
              (λ x i. nh x (In-rest x b front back i)) rest
              (Runs-take_out head b front back s.links (nh, dist) nh runs));
        kept = λ more. ground (arith, more, used, small);
      }
