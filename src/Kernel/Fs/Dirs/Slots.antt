-- ===== src/Kernel/Fs/Dirs/Slots.antt =====
-- kernel/fs.c: the place that dirlink finds for an entry, and its copy of a name.
use mathlib.Core.Path.{subst}
use os_network_concurrency_s.Common.{
  ℕ, zero, suc, ◌+◌, ◌*◌, ◌≡◌, ◌≢◌, ◌≤◌, ◌<◌, some, ltb, ◌==◌, true, false, ◌⊎◌, inl, inr, arith,
  refl, sym, ◌∙◌, if-all, ℕ_discrete, dec_lt,
}
use os_network_concurrency_s.Kernel.Fs.Blocks.{Disk, Inode}
use os_network_concurrency_s.Kernel.Fs.Dirs.{
  dirent_size, de_inum, same_name, ended, copied_name, Slot, slot_at, slot_read, slot_from,
}
use os_network_concurrency_s.Kernel.Fs.Dirs.Lookup.{
  IsDir, entry, SameDir, SameDir-refl, SameDir-trans, readi-entry,
}

-- The end of the directory, or an entry that is not in use.
abbrev pub Free : ℕ → Inode → Disk → Type 0
Free k ip d = (k * dirent_size ≡ ip.size) ⊎ (de_inum (entry ip d k) ≡ 0)

-- A slot: a place for an entry in the directory or at its end.
abbrev pub Slotted : ℕ → Inode → Disk → Slot → Type 0
Slotted j ip d o =
    (k : ℕ) × ((jp : Inode) × ((e : Disk) × ((o ≡ some (k * dirent_size, (jp, e)))
          × (SameDir ip d jp e × ((k * dirent_size ≤ ip.size) × Free k ip d)))))

pub later_Free :
    (k : ℕ) (ip jp : Inode) (d e : Disk)
    → IsDir ip d
    → SameDir ip d jp e
    → k * dirent_size ≤ ip.size
    → Free k jp e
    → Free k ip d
later_Free k ip jp d e h s le (inl q) = inl (q ∙ s.size)
later_Free k ip jp d e h s le (inr z) = elim (dec_lt (k * dirent_size) ip.size) [
  | yes l ↦
      let small = h.small in
      let whole = h.whole in
      inr (
        ground (
          arith,
          z,
          s.bytes (k * dirent_size + 0) (omega arith),
          s.bytes (k * dirent_size + 1) (omega arith),
        ))
  | no l ↦ inl (omega arith)
]

pub slot_from-Slotted :
    (rounds j : ℕ) (ip : Inode) (d : Disk)
    → IsDir ip d
    → j * dirent_size ≤ ip.size
    → ip.size ≤ (j + rounds) * dirent_size
    → Slotted j ip d (slot_from rounds (j * dirent_size) ip d)
unfolding slot_from slot_read slot_at
slot_from-Slotted zero j ip d h le enough =
    (j, (ip, (d, (refl, (SameDir-refl ip d h, (le, inl (omega arith)))))))
slot_from-Slotted (suc rounds) j ip d h le enough =
    let P : Slot → Type 0 = Slotted j ip d in
    if-all P (ltb (j * dirent_size) ip.size) _ _
      (λ t.
        let lt : j * dirent_size < ip.size = ground (arith, t) in
        let whole = h.whole in
        let (r, (q, (n, (got, s)))) = readi-entry j ip d h lt in
        let size = s.size in
        let go : Inode → Disk → Slot =
          λ jp e. slot_from rounds (j * dirent_size + dirent_size) jp e in
        let next : (j + 1) * dirent_size ≡ j * dirent_size + dirent_size = omega arith in
        let (k, (jp, (e, (at, (s', (le', free)))))) =
          subst (λ x. Slotted (j + 1) r.inode r.disk (slot_from rounds x r.inode r.disk)) next
            (slot_from-Slotted rounds (j + 1) r.inode r.disk s.dir (omega arith) (omega arith)) in
        subst (λ o. P (slot_read (j * dirent_size) o go)) (sym q)
          (subst (λ o. P (slot_at (j * dirent_size) o r.buffer r.inode r.disk go)) (sym n)
            (if-all P (de_inum r.buffer == 0) _ _
              (λ z. (
                j,
                (
                  r.inode,
                  (
                    r.disk,
                    (
                      refl,
                      (s, (le, inr (ground (arith, z, got 0 (omega arith), got 1 (omega arith))))),
                    ),
                  ),
                ),
              ))
              (λ nz. (
                k,
                (
                  jp,
                  (
                    e,
                    (
                      at,
                      (
                        SameDir-trans ip r.inode jp d r.disk e s s',
                        (omega arith, later_Free k ip r.inode d r.disk h s (omega arith) free),
                      ),
                    ),
                  ),
                ),
              )))))
      (λ t. (j, (ip, (d, (refl, (SameDir-refl ip d h, (le, inl (ground (arith, t, le)))))))))

-- A name equals its copy.
not_ended : (k : ℕ) (name : ℕ → ℕ) → ended k name ≡ false → name k ≢ 0 → ended (k + 1) name ≡ false
unfolding ended
not_ended k name e n = ground (arith, e, n)

pub same_name-copied :
    (n k : ℕ) (name : ℕ → ℕ) → ended k name ≡ false → same_name n k name (copied_name name) ≡ true
unfolding same_name
same_name-copied zero k name e = refl
same_name-copied (suc n) k name e = elim (ℕ_discrete (name k) 0) [
  | yes z ↦ ground (arith, z, e)
  | no nz ↦ ground (arith, nz, e, same_name-copied n (k + 1) name (not_ended k name e nz))
]
