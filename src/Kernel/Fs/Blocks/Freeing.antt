-- ===== src/Kernel/Fs/Blocks/Freeing.antt =====
-- kernel/fs.c: the loops of itrunc, and bfree.
use mathlib.Core.Path.{subst}
use os_network_concurrency_s.Common.{
  ℕ, zero, suc, ◌+◌, ◌≡◌, ◌≢◌, ◌<◌, ◌≤◌, Option, some, ◌==◌, update, true, false, arith, refl, sym,
  ◌∙◌, ap, if-all, ℕ_discrete, ◌⊎◌, inl, inr,
}
use os_network_concurrency_s.Kernel.Fs.Blocks.{
  Disk, Inode, entries, bfree, and_then, free_direct, free_entries,
}

-- The numbers of the list `f` from `lo` up to `hi` are in use and differ, where they are not 0.
pub record Listed (f : ℕ → ℕ) (lo hi : ℕ) (d : Disk) : Type 0 where
  pub used : (k : ℕ) → lo ≤ k → k < hi → f k ≢ 0 → d.in_use (f k) ≡ true
  pub once : (k l : ℕ) → lo ≤ k → k < hi → lo ≤ l → l < hi → f k ≢ 0 → f k ≡ f l → k ≡ l

-- These blocks are free now, and nothing else has changed.
pub record Freed (f : ℕ → ℕ) (lo hi : ℕ) (d e : Disk) : Type 0 where
  pub free : (k : ℕ) → lo ≤ k → k < hi → f k ≢ 0 → e.in_use (f k) ≡ false
  pub others : (c : ℕ) → ((k : ℕ) → lo ≤ k → k < hi → f k ≢ 0 → f k ≢ c) → e.in_use c ≡ d.in_use c
  pub same_bytes : e.bytes ≡ d.bytes

none-Freed : (f : ℕ → ℕ) (lo : ℕ) (d : Disk) → Freed f lo lo d d
none-Freed f lo d = record {
  free = λ k l u. absurd (ground (arith, l, u));
  others = λ c n. refl;
  same_bytes = refl;
}

rest-Listed :
    (f : ℕ → ℕ) (lo hi : ℕ) (d e : Disk)
    → Listed f lo hi d
    → f lo ≡ 0
    → e.in_use ≡ d.in_use
    → Listed f (lo + 1) hi e
rest-Listed f lo hi d e h z s = record {
  used = λ k l u n. ap (λ g. g (f k)) s ∙ h.used k (omega arith) u n;
  once = λ k i l u m v n q. h.once k i (omega arith) u (omega arith) v n q;
}

skip-Freed :
    (f : ℕ → ℕ) (lo hi : ℕ) (d e : Disk) → f lo ≡ 0 → Freed f (lo + 1) hi d e → Freed f lo hi d e
skip-Freed f lo hi d e z w = record {
  free = λ k l u n. elim (ℕ_discrete lo k) [
    | yes q ↦ absurd (n (ap f (sym q) ∙ z))
    | no ne ↦ w.free k (ground (arith, l, ne)) u n
  ];
  others = λ c n. w.others c (λ k l u m. n k (omega arith) u m);
  same_bytes = w.same_bytes;
}

abbrev pub without : ℕ → Disk → Disk
without b d = record d { in_use = update d.in_use b false }

pub bfree_lem : (b : ℕ) (d : Disk) → d.in_use b ≡ true → bfree b d ≡ some (without b d)
unfolding bfree
bfree_lem b d u = ground (arith, u)

free_one-Listed :
    (f : ℕ → ℕ) (lo hi : ℕ) (d : Disk)
    → Listed f lo hi d
    → lo < hi
    → f lo ≢ 0
    → Listed f (lo + 1) hi (without (f lo) d)
free_one-Listed f lo hi d h lt nz = record {
  used = λ k l u n.
      ground
        (arith, l, h.used k (omega arith) u n, h.once lo k (omega arith) lt (omega arith) u nz);
  once = λ k i l u m v n q. h.once k i (omega arith) u (omega arith) v n q;
}

free_one-Freed :
    (f : ℕ → ℕ) (lo hi : ℕ) (d e : Disk)
    → Listed f lo hi d
    → lo < hi
    → f lo ≢ 0
    → Freed f (lo + 1) hi (without (f lo) d) e
    → Freed f lo hi d e
free_one-Freed f lo hi d e h lt nz w = record {
  free = λ k l u n. elim (ℕ_discrete lo k) [
    | yes q ↦
        ap (λ x. e.in_use (f x)) (sym q)
        ∙ (w.others (f lo) (λ i m v j r.
              absurd (ground (arith, m, h.once i lo (omega arith) v (omega arith) lt j r)))
            ∙ ground arith)
    | no ne ↦ w.free k (ground (arith, l, ne)) u n
  ];
  others = λ c n.
      w.others c (λ k l u m. n k (omega arith) u m) ∙ ground (arith, n lo (omega arith) lt nz);
  same_bytes = w.same_bytes;
}

pub free_entries-Freed :
    (f : ℕ → ℕ) (rounds j b : ℕ) (d : Disk)
    → entries d b ≡ f
    → Listed f j (j + rounds) d
    → (e : Disk) × ((free_entries rounds j b d ≡ some e) × Freed f j (j + rounds) d e)
unfolding free_entries and_then
free_entries-Freed f zero j b d is h =
    let q : j ≡ j + zero = omega arith in
    (d, (refl, subst (λ x. Freed f j x d d) q (none-Freed f j d)))
free_entries-Freed f (suc rounds) j b d is h =
    let P : Option Disk → Type 0 =
      λ o. (e : Disk) × ((o ≡ some e) × Freed f j (j + suc rounds) d e) in
    let hi : j + 1 + rounds ≡ j + suc rounds = omega arith in
    let here : entries d b j ≡ f j = ap (λ (g : ℕ → ℕ). g j) is in
    if-all P (entries d b j == 0) _ _
      (λ z.
        let zj : f j ≡ 0 = sym here ∙ ground (arith, z) in
        let (e, (q, w)) = free_entries-Freed f rounds (j + 1) b d is (
          subst (λ x. Listed f (j + 1) x d) (sym hi)
            (rest-Listed f j (j + suc rounds) d d h zj refl)) in
        (e, (q, skip-Freed f j (j + suc rounds) d e zj (subst (λ x. Freed f (j + 1) x d e) hi w))))
      (λ n.
        let nz : f j ≢ 0 = λ q. absurd (ground (arith, q, n, here)) in
        let lt : j < j + suc rounds = omega arith in
        let done : bfree (entries d b j) d ≡ some (without (f j) d) =
          ap (λ x. bfree x d) here ∙ bfree_lem (f j) d (h.used j (omega arith) lt nz) in
        let (e, (q, w)) = free_entries-Freed f rounds (j + 1) b (without (f j) d) is (
          subst (λ x. Listed f (j + 1) x (without (f j) d)) (sym hi)
            (free_one-Listed f j (j + suc rounds) d h lt nz)) in
        subst (λ o. P (and_then o (free_entries rounds (j + 1) b))) (sym done)
          (
            e,
            (
              q,
              free_one-Freed f j (j + suc rounds) d e h lt nz
                  (subst (λ x. Freed f (j + 1) x (without (f j) d) e) hi w),
            ),
          ))

-- The addresses up to `hi` are 0 now.
pub record Cleared (i hi : ℕ) (ip jp : Inode) : Type 0 where
  pub zero_addrs : (k : ℕ) → i ≤ k → k < hi → jp.addrs k ≡ 0
  pub other_addrs : (k : ℕ) → (k < i) ⊎ (hi ≤ k) → jp.addrs k ≡ ip.addrs k

clear_one-Cleared :
    (i hi : ℕ) (ip jp : Inode) (a : ℕ → ℕ)
    → ((k : ℕ) → k ≢ i → a k ≡ ip.addrs k)
    → a i ≡ 0
    → i < hi
    → Cleared (i + 1) hi (record ip { addrs = a }) jp
    → Cleared i hi ip jp
clear_one-Cleared i hi ip jp a same z lt w = record {
  zero_addrs = λ k l u. elim (ℕ_discrete k i) [
    | yes q ↦ ground (arith, q, z, w.other_addrs i (inl (omega arith)))
    | no ne ↦ w.zero_addrs k (ground (arith, l, ne)) u
  ];
  other_addrs = λ k o. elim o [
    | inl l ↦ w.other_addrs k (inl (omega arith)) ∙ same k (λ q. absurd (ground (arith, q, l)))
    | inr l ↦ w.other_addrs k (inr l) ∙ same k (λ q. absurd (ground (arith, q, l, lt)))
  ];
}

-- What a loop over the inode leaves.
abbrev pub Emptied : (f : ℕ → ℕ) (i hi : ℕ) → Inode → Disk → Inode × Disk → Type 0
Emptied f i hi ip d r = Freed f i hi d r.1 × Cleared i hi ip r.0

pub free_direct-Emptied :
    (f : ℕ → ℕ) (rounds i : ℕ) (ip : Inode) (d : Disk)
    → ((k : ℕ) → i ≤ k → ip.addrs k ≡ f k)
    → Listed f i (i + rounds) d
    → (r : Inode × Disk) × ((free_direct rounds i ip d ≡ some r) × Emptied f i (i + rounds) ip d r)
unfolding free_direct and_then
free_direct-Emptied f zero i ip d is h =
    let q : i ≡ i + zero = omega arith in
    (
      (ip, d),
      (
        refl,
        (
          subst (λ x. Freed f i x d d) q (none-Freed f i d),
          record { zero_addrs = λ k l u. absurd (ground (arith, l, u)); other_addrs = λ k o. refl },
        ),
      ),
    )
free_direct-Emptied f (suc rounds) i ip d is h =
    let P : Option (Inode × Disk) → Type 0 =
      λ o. (r : Inode × Disk) × ((o ≡ some r) × Emptied f i (i + suc rounds) ip d r) in
    let hi : i + 1 + rounds ≡ i + suc rounds = omega arith in
    let lt : i < i + suc rounds = omega arith in
    let here : ip.addrs i ≡ f i = is i (omega arith) in
    if-all P (ip.addrs i == 0) _ _
      (λ z.
        let az : ip.addrs i ≡ 0 = ground (arith, z) in
        let zi : f i ≡ 0 = sym here ∙ az in
        let (r, (q, (w, c))) =
          free_direct-Emptied f rounds (i + 1) ip d (λ k l. is k (omega arith))
            (subst (λ x. Listed f (i + 1) x d) (sym hi)
              (rest-Listed f i (i + suc rounds) d d h zi refl)) in
        (
          r,
          (
            q,
            (
              skip-Freed f i (i + suc rounds) d r.1 zi (subst (λ x. Freed f (i + 1) x d r.1) hi w),
              clear_one-Cleared i (i + suc rounds) ip r.0 ip.addrs (λ k n. refl) az lt
                  (subst (λ x. Cleared (i + 1) x ip r.0) hi c),
            ),
          ),
        ))
      (λ n.
        let nz : f i ≢ 0 = λ q. absurd (ground (arith, q, n, here)) in
        let jp : Inode = record ip { addrs = update ip.addrs i 0 } in
        let done : bfree (ip.addrs i) d ≡ some (without (f i) d) =
          ap (λ x. bfree x d) here ∙ bfree_lem (f i) d (h.used i (omega arith) lt nz) in
        let (r, (q, (w, c))) =
          free_direct-Emptied f rounds (i + 1) jp (without (f i) d)
            (λ k l. ground (arith, l, is k (omega arith)))
            (subst (λ x. Listed f (i + 1) x (without (f i) d)) (sym hi)
              (free_one-Listed f i (i + suc rounds) d h lt nz)) in
        subst (λ o. P (and_then o (free_direct rounds (i + 1) jp))) (sym done)
          (
            r,
            (
              q,
              (
                free_one-Freed f i (i + suc rounds) d r.1 h lt nz
                    (subst (λ x. Freed f (i + 1) x (without (f i) d) r.1) hi w),
                clear_one-Cleared i (i + suc rounds) ip r.0 jp.addrs (λ k ne. ground (arith, ne))
                    (ground arith) lt (subst (λ x. Cleared (i + 1) x jp r.0) hi c),
              ),
            ),
          ))
