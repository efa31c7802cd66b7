-- ===== src/Kernel/Fs/Dirs/Get.antt =====
-- kernel/fs.c: dirlookup with its iget.
use mathlib.Core.Path.{subst}
use os_network_concurrency_s.Common.{
  ℕ, ◌+◌, ◌^◌, ◌≡◌, ◌≢◌, ◌≤◌, ◌<◌, Option, none, some, leb, ◌==◌, false, ◌⊎◌, inl, inr, arith, refl,
  sym, ap, ◌∙◌, if-all,
}
use os_network_concurrency_s.Common.Outcome.{Outcome, returns, panics, faults, exits}
use os_network_concurrency_s.Kernel.Fs.Blocks.{Disk, Inode}
use os_network_concurrency_s.Kernel.Fs.Inodes.{
  ninode, Entry, Itable, put_entry, Scan, hit, miss, scan, add_reference, get_scanned, iget,
}
use os_network_concurrency_s.Kernel.Fs.Inodes.Trunc.{entry_here}
use os_network_concurrency_s.Kernel.Fs.Inodes.Get.{Holds, Unique, GetEnds, iget-GetEnds}
use os_network_concurrency_s.Kernel.Fs.Dirs.{t_dir, stored, look_found, dirlookup}
use os_network_concurrency_s.Kernel.Fs.Dirs.Lookup.{IsDir, SameDir, LookEnds, find_dirent-Looked}

-- `iget` changes no inode itself.
abbrev SameContent : Itable → Outcome Itable ℕ → Type 0
SameContent s (returns e t) = ((k : ℕ) → (t.inode k).copy ≡ (s.inode k).copy) × (t.disk ≡ s.disk)
SameContent s _ = Unit

entry_copy :
    (i : ℕ) (e : Entry) (s : Itable)
    → e.copy ≡ (s.inode i).copy
    → (k : ℕ) → ((put_entry i e s).inode k).copy ≡ (s.inode k).copy
entry_copy i e s q k =
    if-all (λ x. x.copy ≡ (s.inode k).copy) (i == k) e (s.inode k)
      (λ t. let same : i ≡ k = ground (arith, t) in q ∙ ap (λ j. (s.inode j).copy) same) (λ _. refl)

get_scanned-SameContent :
    (dev inum : ℕ) (r : Scan) (s : Itable) → SameContent s (get_scanned dev inum r s)
unfolding get_scanned add_reference
get_scanned-SameContent dev inum (hit i) s =
    if-all (SameContent s) (leb (2 ^ 31) ((s.inode i).ref + 1)) _ _ (λ _. tt)
      (λ _. (entry_copy i (record (s.inode i) { ref = (s.inode i).ref + 1 }) s refl, refl))
get_scanned-SameContent dev inum (miss none) s = tt
get_scanned-SameContent dev inum (miss (some i)) s = (
  entry_copy i (record (s.inode i) { dev = dev; inum = inum; ref = 1; valid = false }) s refl,
  refl,
)

iget-SameContent : (dev inum : ℕ) (s : Itable) → SameContent s (iget dev inum s)
unfolding iget
iget-SameContent dev inum s =
    get_scanned-SameContent dev inum (scan ninode 0 dev inum none s.inode) s

-- The entry holds the inode, with one reference more or with its first one.
pub record Referred (dev inum e : ℕ) (s t : Itable) : Type 0 where
  pub low : e < ninode
  pub holds : Holds dev inum (t.inode e)
  pub unique : Unique t
  pub more :
      (((s.inode e).ref ≢ 0) × ((t.inode e).ref ≡ (s.inode e).ref + 1))
      ⊎ (((t.inode e).ref ≡ 1) × ((t.inode e).valid ≡ false))

-- What `dirlookup` comes to in the directory of entry `i`.
abbrev pub LookOutcome : (ℕ → ℕ) → ℕ → Itable → Outcome Itable (Option (ℕ × ℕ)) → Type 0
LookOutcome name i s (returns none t) =
    SameDir (s.inode i).copy s.disk (t.inode i).copy t.disk
    × LookEnds name 0 (s.inode i).copy s.disk none
LookOutcome name i s (returns (some (off, e)) t) =
    SameDir (s.inode i).copy s.disk (t.inode i).copy t.disk
    × ((inum : ℕ) × (LookEnds name 0 (s.inode i).copy s.disk (some (off, inum))
          × Referred (s.inode i).dev inum e s t))
LookOutcome name i s panics =
    (off : ℕ) × ((inum : ℕ) × (LookEnds name 0 (s.inode i).copy s.disk (some (off, inum))
        × ((k : ℕ)
            → k < ninode
            → ((s.inode k).ref ≢ 0) × ¬ Holds (s.inode i).dev inum (s.inode k))))
LookOutcome name i s faults = (k : ℕ) × ((k < ninode) × (2 ^ 31 ≤ (s.inode k).ref + 1))
LookOutcome name i s (exits t) = ⊥

stored_ref :
    (i : ℕ) (ip : Inode) (d : Disk) (s : Itable) (k : ℕ)
    → ((stored i ip d s).inode k).ref ≡ (s.inode k).ref
stored_ref i ip d s k = ground arith

stored_dev :
    (i : ℕ) (ip : Inode) (d : Disk) (s : Itable) (k : ℕ)
    → ((stored i ip d s).inode k).dev ≡ (s.inode k).dev
stored_dev i ip d s k = ground arith

stored_inum :
    (i : ℕ) (ip : Inode) (d : Disk) (s : Itable) (k : ℕ)
    → ((stored i ip d s).inode k).inum ≡ (s.inode k).inum
stored_inum i ip d s k = ground arith

pub stored_copy :
    (i : ℕ) (ip : Inode) (d : Disk) (s : Itable) → ((stored i ip d s).inode i).copy ≡ ip
stored_copy i ip d s = entry_here i (record (s.inode i) { copy = ip }) s

stored-Unique : (i : ℕ) (ip : Inode) (d : Disk) (s : Itable) → Unique s → Unique (stored i ip d s)
stored-Unique i ip d s u j k lj lk nj nk q r =
    let ref = stored_ref i ip d s in
    let dev = stored_dev i ip d s in
    let num = stored_inum i ip d s in
    u j k lj lk (λ z. nj (ref j ∙ z)) (λ z. nk (ref k ∙ z)) (sym (dev j) ∙ (q ∙ dev k))
      (sym (num j) ∙ (r ∙ num k))

abbrev with_offset : ℕ → Outcome Itable ℕ → Outcome Itable (Option (ℕ × ℕ))
with_offset off o = elim o [
  | returns e t ↦ returns (some (off, e)) t
  | exits t ↦ exits t
  | panics ↦ panics
  | faults ↦ faults
]

-- After the search found an entry, with the outcome of `iget`.
got-LookOutcome :
    (name : ℕ → ℕ) (i off inum : ℕ) (ip : Inode) (d : Disk) (s : Itable) (o : Outcome Itable ℕ)
    → SameDir (s.inode i).copy s.disk ip d
    → LookEnds name 0 (s.inode i).copy s.disk (some (off, inum))
    → SameContent (stored i ip d s) o
    → GetEnds (s.inode i).dev inum (stored i ip d s) o
    → LookOutcome name i s (with_offset off o)
got-LookOutcome name i off inum ip d s (returns e t) h w (copies, disk)
      (low, (holds, (unique, (others, more)))) =
    let copy : (t.inode i).copy ≡ ip = copies i ∙ stored_copy i ip d s in
    (
      subst (λ x. SameDir (s.inode i).copy s.disk x t.disk) (sym copy)
          (subst (λ x. SameDir (s.inode i).copy s.disk ip x) (sym disk) h),
      (
        inum,
        (
          w,
          record {
            low = low;
            holds = holds;
            unique = unique;
            more = elim more [
              | inl m ↦ inl (
                λ z. m.0.0 (stored_ref i ip d s e ∙ z),
                m.1 ∙ ap (λ x. x + 1) (stored_ref i ip d s e),
              )
              | inr m ↦ inr m.1.1
            ];
          },
        ),
      ),
    )
got-LookOutcome name i off inum ip d s (exits t) h w c g = g
got-LookOutcome name i off inum ip d s panics h w c g = (
  off,
  (
    inum,
    (
      w,
      λ k lt. (
        λ z. (g k lt).0 (stored_ref i ip d s k ∙ z),
        λ b. (g k lt).1 (
          λ z. b.0 (sym (stored_ref i ip d s k) ∙ z),
          (stored_dev i ip d s k ∙ b.1.0, stored_inum i ip d s k ∙ b.1.1),
        ),
      ),
    ),
  ),
)
got-LookOutcome name i off inum ip d s faults h w c (k, (lt, big)) =
    (k, (lt, ground (arith, big, stored_ref i ip d s k)))

look_found-LookOutcome :
    (name : ℕ → ℕ) (i : ℕ) (s : Itable) (a : Option (ℕ × ℕ)) (ip : Inode) (d : Disk)
    → Unique s
    → SameDir (s.inode i).copy s.disk ip d
    → LookEnds name 0 (s.inode i).copy s.disk a
    → LookOutcome name i s (look_found i (some (a, (ip, d))) s)
unfolding look_found
look_found-LookOutcome name i s none ip d u h w =
    (subst (λ c. SameDir (s.inode i).copy s.disk c d) (sym (stored_copy i ip d s)) h, w)
look_found-LookOutcome name i s (some (off, inum)) ip d u h w =
    got-LookOutcome name i off inum ip d s (iget (s.inode i).dev inum (stored i ip d s)) h w
      (iget-SameContent (s.inode i).dev inum (stored i ip d s))
      (iget-GetEnds (s.inode i).dev inum (stored i ip d s) (stored-Unique i ip d s u))

-- `dirlookup` in a directory of whole entries that are all on the disk, whose blocks are in use and
-- apart (block 0 in use, the size of the disk a uint), with no inode in two entries of the table. It
-- returns none if no entry of the directory is in use and has the name. Otherwise it returns the
-- offset of the first that is and has, with an entry of the table that holds its inode, with one
-- reference more or with the first; it panics only if all 50 entries of the table have references
-- and none is for this inode; and a count of 2^31 - 1 may overflow. The bytes of the directory stay.
pub dirlookup-LookOutcome :
    (name : ℕ → ℕ) (i : ℕ) (s : Itable)
    → (s.inode i).copy.type ≡ t_dir
    → IsDir (s.inode i).copy s.disk
    → Unique s
    → LookOutcome name i s (dirlookup name i s)
unfolding dirlookup
dirlookup-LookOutcome name i s type h u =
    let (a, (ip, (d, (q, (same, w))))) = find_dirent-Looked name (s.inode i).copy s.disk type h in
    subst (λ o. LookOutcome name i s (look_found i o s)) (sym q)
      (look_found-LookOutcome name i s a ip d u same w)
