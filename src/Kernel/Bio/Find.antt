-- ===== src/Kernel/Bio/Find.antt =====
-- kernel/bio.c: what the two loops of bget find.
use mathlib.Core.Path.{subst}
use os_network_concurrency_s.Common.{
  ℕ, ◌≡◌, ◌≢◌, ◌⊎◌, inl, inr, none, some, List, [], ◌∷◌, ◌++◌, arith, refl, Bool-cases,
  Option-cases, ap, sym, ◌∙◌,
}
use os_network_concurrency_s.Kernel.Bio.{Buf, holds, find_cached, or_unused, find_unused}

abbrev pub In : ℕ → List ℕ → Type 0
In a [] = ⊥
In a (b ∷ bs) = (a ≡ b) ⊎ In a bs

module _ {D : Type 0} (buf : ℕ → Buf D) where
  abbrev pub Holds : ℕ → ℕ → ℕ → Type 0
  Holds dev blockno b = ((buf b).dev ≡ dev) × ((buf b).blockno ≡ blockno)

  pub find_cached-some :
      (dev blockno b : ℕ) (bs : List ℕ)
      → find_cached dev blockno buf bs ≡ some b
      → In b bs × Holds dev blockno b
  unfolding find_cached
  find_cached-some dev blockno b [] e = absurd (ground (arith, e))
  find_cached-some dev blockno b (c ∷ cs) e = elim (Bool-cases (holds dev blockno (buf c))) [
    | inl here ↦ (inl (ground (arith, e, here)), ground (arith, e, here))
    | inr later ↦
        let rest = find_cached-some dev blockno b cs (ground (arith, e, later)) in
        (inr rest.0, rest.1)
  ]

  pub find_cached-none :
      (dev blockno b : ℕ) (bs : List ℕ)
      → find_cached dev blockno buf bs ≡ none
      → In b bs
      → ¬ Holds dev blockno b
  unfolding find_cached
  find_cached-none dev blockno b [] e i h = i
  find_cached-none dev blockno b (c ∷ cs) e (inl here) h = absurd (ground (arith, e, here, h))
  find_cached-none dev blockno b (c ∷ cs) e (inr later) h =
      find_cached-none dev blockno b cs (ground (arith, e)) later h

  -- All of these buffers are in use.
  abbrev pub InUse : List ℕ → Type 0
  InUse [] = Unit
  InUse (b ∷ bs) = ((buf b).refcnt ≢ 0) × InUse bs

  -- The last unused buffer of the list.
  pub record LastUnused (b : ℕ) (bs : List ℕ) : Type 0 where
    pub before : List ℕ
    pub after : List ℕ
    pub place : bs ≡ before ++ (b ∷ after)
    pub unused : (buf b).refcnt ≡ 0
    pub in_use : InUse after

  pub find_unused-none : (bs : List ℕ) → find_unused buf bs ≡ none → InUse bs
  unfolding find_unused
  find_unused-none [] e = tt
  find_unused-none (b ∷ bs) e = elim (Option-cases (find_unused buf bs)) [
    | inl n ↦ (ground (arith, subst (λ o. or_unused buf b o ≡ none) n e), find_unused-none bs n)
    | inr (c, found) ↦ absurd (ground (arith, subst (λ o. or_unused buf b o ≡ none) found e))
  ]

  pub find_unused-some : (b : ℕ) (bs : List ℕ) → find_unused buf bs ≡ some b → LastUnused b bs
  unfolding find_unused
  find_unused-some b [] e = absurd (ground (arith, e))
  find_unused-some b (c ∷ cs) e = elim (Option-cases (find_unused buf cs)) [
    | inl n ↦
        let chosen = subst (λ o. or_unused buf c o ≡ some b) n e in
        let same : c ≡ b = ground (arith, chosen) in
        record {
          before = [];
          after = cs;
          place = ap (λ x. x ∷ cs) same;
          unused = ground (arith, chosen);
          in_use = find_unused-none cs n;
        }
    | inr (d, found) ↦
        let same : some d ≡ some b = subst (λ o. or_unused buf c o ≡ some b) found e in
        let rest = find_unused-some b cs (found ∙ same) in
        record {
          before = c ∷ rest.before;
          after = rest.after;
          place = ap (λ l. c ∷ l) rest.place;
          unused = rest.unused;
          in_use = rest.in_use;
        }
  ]

  pub LastUnused-In : (b : ℕ) (bs : List ℕ) → LastUnused b bs → In b bs
  LastUnused-In b bs l = subst (In b) (sym l.place) (middle l.before)
    where
      middle : (xs : List ℕ) → In b (xs ++ (b ∷ l.after))
      middle [] = inl refl
      middle (x ∷ xs) = inr (middle xs)

  pub InUse-In : (b : ℕ) (bs : List ℕ) → InUse bs → In b bs → (buf b).refcnt ≢ 0
  InUse-In b [] u i = absurd i
  InUse-In b (c ∷ cs) (u, us) (inl here) = subst (λ x. (buf x).refcnt ≢ 0) (sym here) u
  InUse-In b (c ∷ cs) (u, us) (inr later) = InUse-In b cs us later
