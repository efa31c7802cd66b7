-- ===== src/Kernel/Fs/Inodes/Get.antt =====
-- kernel/fs.c: what iget returns.
use mathlib.Core.Path.{subst}
use os_network_concurrency_s.Common.{
  ℕ, zero, suc, ◌+◌, ◌^◌, ◌≡◌, ◌≢◌, ◌≤◌, ◌<◌, Option, none, some, leb, false, ◌⊎◌, inl, inr, arith,
  refl, ℕ_discrete, if-all,
}
use os_network_concurrency_s.Common.Outcome.{Outcome, returns, panics, faults, exits}
use os_network_concurrency_s.Kernel.Fs.Inodes.{
  ninode, Entry, Itable, holds_inode, remember, Scan, hit, miss, scan, add_reference, get_scanned,
  iget,
}

-- A reference to the inode is held.
abbrev pub Holds : ℕ → ℕ → Entry → Type 0
Holds dev inum e = (e.ref ≢ 0) × ((e.dev ≡ dev) × (e.inum ≡ inum))

-- No inode has two entries with references.
abbrev pub Unique : Itable → Type 0
Unique s =
    (i j : ℕ)
    → i < ninode
    → j < ninode
    → (s.inode i).ref ≢ 0
    → (s.inode j).ref ≢ 0
    → (s.inode i).dev ≡ (s.inode j).dev
    → (s.inode i).inum ≡ (s.inode j).inum
    → i ≡ j

-- What the loop of `iget` finds in the entries from `i` up to `hi`.
abbrev Scanned : (i hi dev inum : ℕ) → Option ℕ → (ℕ → Entry) → Scan → Type 0
Scanned i hi dev inum empty inode (hit j) = (i ≤ j) × ((j < hi) × Holds dev inum (inode j))
Scanned i hi dev inum empty inode (miss none) =
    ((k : ℕ) → i ≤ k → k < hi → ¬ Holds dev inum (inode k))
    × ((empty ≡ none) × ((k : ℕ) → i ≤ k → k < hi → (inode k).ref ≢ 0))
Scanned i hi dev inum empty inode (miss (some j)) =
    ((k : ℕ) → i ≤ k → k < hi → ¬ Holds dev inum (inode k))
    × ((empty ≡ some j) ⊎ ((i ≤ j) × ((j < hi) × ((inode j).ref ≡ 0))))

later-Scanned :
    (i hi dev inum : ℕ) (empty : Option ℕ) (inode : ℕ → Entry) (r : Scan)
    → holds_inode dev inum (inode i) ≡ false
    → i < hi
    → Scanned (i + 1) hi dev inum (remember i (inode i) empty) inode r
    → Scanned i hi dev inum empty inode r
later-Scanned i hi dev inum empty inode (hit j) f lt (lo, (up, h)) = (omega arith, (up, h))
later-Scanned i hi dev inum none inode (miss none) f lt (free, (e, used)) = (
  λ k l u h. elim (ℕ_discrete i k) [
    | yes q ↦ absurd (ground (arith, f, q, h))
    | no ne ↦ free k (ground (arith, l, ne)) u h
  ],
  (
    refl,
    λ k l u z. elim (ℕ_discrete i k) [
      | yes q ↦ absurd (ground (arith, e, q, z))
      | no ne ↦ used k (ground (arith, l, ne)) u z
    ],
  ),
)
later-Scanned i hi dev inum (some x) inode (miss none) f lt (free, (e, used)) =
    absurd (ground (arith, e))
later-Scanned i hi dev inum none inode (miss (some j)) f lt (free, found) = (
  λ k l u h. elim (ℕ_discrete i k) [
    | yes q ↦ absurd (ground (arith, f, q, h))
    | no ne ↦ free k (ground (arith, l, ne)) u h
  ],
  elim found [
    | inl e ↦ inr (ground (arith, e, lt))
    | inr (lo, (up, z)) ↦ inr (omega arith, (up, z))
  ],
)
later-Scanned i hi dev inum (some x) inode (miss (some j)) f lt (free, found) = (
  λ k l u h. elim (ℕ_discrete i k) [
    | yes q ↦ absurd (ground (arith, f, q, h))
    | no ne ↦ free k (ground (arith, l, ne)) u h
  ],
  elim found [ inl e ↦ inl e | inr (lo, (up, z)) ↦ inr (omega arith, (up, z)) ],
)

nothing-Scanned :
    (i dev inum : ℕ) (empty : Option ℕ) (inode : ℕ → Entry)
    → Scanned i (i + zero) dev inum empty inode (miss empty)
nothing-Scanned i dev inum none inode =
    (λ k l u. absurd (ground (arith, l, u)), (refl, λ k l u. absurd (ground (arith, l, u))))
nothing-Scanned i dev inum (some j) inode = (λ k l u. absurd (ground (arith, l, u)), inl refl)

scan-Scanned :
    (n i dev inum : ℕ) (empty : Option ℕ) (inode : ℕ → Entry)
    → Scanned i (i + n) dev inum empty inode (scan n i dev inum empty inode)
unfolding scan
scan-Scanned zero i dev inum empty inode = nothing-Scanned i dev inum empty inode
scan-Scanned (suc n) i dev inum empty inode =
    let q : i + 1 + n ≡ i + suc n = omega arith in
    if-all (Scanned i (i + suc n) dev inum empty inode) (holds_inode dev inum (inode i)) (hit i) _
      (λ t. (omega arith, (omega arith, ground (arith, t))))
      (λ f. later-Scanned i (i + suc n) dev inum empty inode _ f (omega arith) (
        subst
          (λ hi.
            Scanned (i + 1) hi dev inum (remember i (inode i) empty) inode
              (scan n (i + 1) dev inum (remember i (inode i) empty) inode))
          q (scan-Scanned n (i + 1) dev inum (remember i (inode i) empty) inode)))

-- What `iget` comes to: the entry of the inode with one reference more, or the first for an inode
-- that had no entry; a panic if all entries are in use for others, or the overflow of a count.
abbrev pub GetEnds : ℕ → ℕ → Itable → Outcome Itable ℕ → Type 0
GetEnds dev inum s (returns i t) =
    (i < ninode)
    × (Holds dev inum (t.inode i)
        × (Unique t
            × (((k : ℕ) → k ≢ i → t.inode k ≡ s.inode k)
                × ((Holds dev inum (s.inode i) × ((t.inode i).ref ≡ (s.inode i).ref + 1))
                    ⊎ (((k : ℕ) → k < ninode → ¬ Holds dev inum (s.inode k))
                        × (((s.inode i).ref ≡ 0)
                            × (((t.inode i).ref ≡ 1) × ((t.inode i).valid ≡ false))))))))
GetEnds dev inum s panics =
    ((k : ℕ) → k < ninode → ((s.inode k).ref ≢ 0) × ¬ Holds dev inum (s.inode k))
GetEnds dev inum s faults = (k : ℕ) × ((k < ninode) × (2 ^ 31 ≤ (s.inode k).ref + 1))
GetEnds dev inum s (exits t) = ⊥

added-GetEnds :
    (i dev inum : ℕ) (s : Itable)
    → Unique s
    → i < ninode
    → Holds dev inum (s.inode i)
    → GetEnds dev inum s (add_reference i s)
unfolding add_reference
added-GetEnds i dev inum s unique lt h =
    if-all (GetEnds dev inum s) (leb (2 ^ 31) ((s.inode i).ref + 1)) faults _
      (λ big. (i, (lt, ground (arith, big))))
      (λ f. (
        lt,
        (
          ground (arith, h),
          (
            λ j k lj lk nj nk d n. ground (arith, h, nj, nk, d, n, unique j k lj lk),
            (λ k ne. ground (arith, ne), inl (h, ground arith)),
          ),
        ),
      ))

get_scanned-GetEnds :
    (dev inum : ℕ) (r : Scan) (s : Itable)
    → Unique s
    → Scanned 0 ninode dev inum none s.inode r
    → GetEnds dev inum s (get_scanned dev inum r s)
unfolding get_scanned
get_scanned-GetEnds dev inum (hit i) s unique (lo, (up, h)) = added-GetEnds i dev inum s unique up h
get_scanned-GetEnds dev inum (miss none) s unique (free, (e, used)) =
    λ k lt. (used k (omega arith) lt, free k (omega arith) lt)
get_scanned-GetEnds dev inum (miss (some i)) s unique (free, inl e) = absurd (ground (arith, e))
get_scanned-GetEnds dev inum (miss (some i)) s unique (free, inr (lo, (up, z))) = (
  up,
  (
    ground arith,
    (
      λ j k lj lk nj nk d n.
          ground (
            arith,
            nj,
            nk,
            d,
            n,
            unique j k lj lk,
            free j (omega arith) lj,
            free k (omega arith) lk,
          ),
      (
        λ k ne. ground (arith, ne),
        inr (λ k lt. free k (omega arith) lt, (z, (ground arith, ground arith))),
      ),
    ),
  ),
)

-- If no inode has two entries with references, `iget` of an inode returns an entry of the table that
-- holds it, and again none has two: its entry with one reference more, or, if it had none, an
-- entry without references that now has one and is not valid. The other entries stay. It panics
-- only if all 50 entries have references and none holds the inode; a count of 2^31 - 1
-- overflows.
pub iget-GetEnds : (dev inum : ℕ) (s : Itable) → Unique s → GetEnds dev inum s (iget dev inum s)
unfolding iget
iget-GetEnds dev inum s unique =
    get_scanned-GetEnds dev inum (scan ninode 0 dev inum none s.inode) s unique
      (scan-Scanned ninode 0 dev inum none s.inode)
