-- ===== src/Kernel/Fs/Dirs/Lookup.antt =====
-- kernel/fs.c: what the search of dirlookup finds.
use mathlib.Core.Path.{subst}
use os_network_concurrency_s.Common.{
  ℕ, zero, suc, ◌+◌, ◌*◌, ◌/◌, ◌%◌, ◌≡◌, ◌≢◌, ◌≤◌, ◌<◌, Option, none, some, ltb, ◌==◌,
  if◌then◌else◌, Bool, true, false, arith, refl, sym, ap, ◌∙◌, if-all, add_uint, ℕ_discrete,
}
use os_network_concurrency_s.Kernel.Fs.Blocks.{Disk, Inode, bsize}
use os_network_concurrency_s.Kernel.Fs.Blocks.Bmap.{block_of, Owns}
use os_network_concurrency_s.Kernel.Fs.Content.{Read, readi}
use os_network_concurrency_s.Kernel.Fs.Content.Bytes.{file_byte}
use os_network_concurrency_s.Kernel.Fs.Content.Writes.{max_size}
use os_network_concurrency_s.Kernel.Fs.Content.Reads.{Answered}
use os_network_concurrency_s.Kernel.Fs.Content.Roundtrip.{available, readi-Reads, read_back}
use os_network_concurrency_s.Kernel.Fs.Paths.{dirsiz}
use os_network_concurrency_s.Kernel.Fs.Dirs.{
  t_dir, dirent_size, de_inum, de_name, same_name, kernel_reach, zeros, LookResult, look_at,
  look_read, look_from, find_dirent,
}

-- A directory: whole entries, all on the disk.
pub record IsDir (ip : Inode) (d : Disk) : Type 0 where
  pub owns : Owns ip d
  pub small : ip.size ≤ max_size
  pub whole : ip.size % dirent_size ≡ 0
  pub present : (x : ℕ) → x < ip.size → block_of ip d (x / bsize) ≢ 0

-- The bytes of entry `j`.
abbrev pub entry : Inode → Disk → ℕ → ℕ → ℕ
entry ip d j k = file_byte ip d (j * dirent_size + k)

-- Whether entry `j` is the one for the name.
abbrev pub is_for : (ℕ → ℕ) → Inode → Disk → ℕ → Bool
is_for name ip d j =
    if de_inum (entry ip d j) == 0 then false else same_name dirsiz 0 name (de_name (entry ip d j))

-- The directory after a lookup: the same bytes.
pub record SameDir (ip : Inode) (d : Disk) (jp : Inode) (e : Disk) : Type 0 where
  pub dir : IsDir jp e
  pub bytes : (x : ℕ) → x < max_size → file_byte jp e x ≡ file_byte ip d x
  pub size : jp.size ≡ ip.size
  pub type : jp.type ≡ ip.type

pub same_name-cong :
    (n k : ℕ) (s t u : ℕ → ℕ)
    → ((i : ℕ) → i < k + n → t i ≡ u i)
    → same_name n k s t ≡ same_name n k s u
unfolding same_name
same_name-cong zero k s t u h = refl
same_name-cong (suc n) k s t u h =
    ground (arith, h k (omega arith), same_name-cong n (k + 1) s t u (λ i l. h i (omega arith)))

-- The read of an entry.
pub readi-entry :
    (j : ℕ) (ip : Inode) (d : Disk)
    → IsDir ip d
    → j * dirent_size < ip.size
    → (r : Read) × ((readi kernel_reach (j * dirent_size) dirent_size zeros ip d ≡ some r)
        × ((r.answer ≡ some dirent_size)
            × (((k : ℕ) → k < dirent_size → r.buffer k ≡ entry ip d j k)
                × SameDir ip d r.inode r.disk)))
readi-entry j ip d h lt =
    let small = h.small in
    let whole = h.whole in
    let fits : j * dirent_size + dirent_size ≤ ip.size = omega arith in
    let (r, (q, w)) =
      readi-Reads kernel_reach (j * dirent_size) dirent_size zeros ip d h.owns small (omega arith)
        (omega arith) in
    let m : available ip.size (j * dirent_size) dirent_size ≡ dirent_size =
      ground (arith, small, fits) in
    let got =
      read_back kernel_reach (j * dirent_size) dirent_size d ip zeros (entry ip d j) r r.answer
        (λ k. omega arith) (λ x l u. h.present x (omega arith)) (λ k l. refl)
        (subst (λ c. Answered kernel_reach c 0 (j * dirent_size) ip d zeros r r.answer) m
          w.answer) in
    (
      r,
      (
        q,
        (
          got.0,
          (
            got.1,
            record {
              dir = record {
                owns = w.owns;
                small = ground (arith, w.same_size, small);
                whole = ap (λ x. x % dirent_size) w.same_size ∙ whole;
                present = λ x l z.
                    let inside : x < ip.size = ground (arith, w.same_size, l) in
                    h.present x inside (w.blocks (x / bsize) (omega arith) z);
              };
              bytes = w.same;
              size = w.same_size;
              type = w.same_type;
            },
          ),
        ),
      ),
    )

pub SameDir-refl : (ip : Inode) (d : Disk) → IsDir ip d → SameDir ip d ip d
SameDir-refl ip d h = record { dir = h; bytes = λ x l. refl; size = refl; type = refl }

-- The test of an entry needs its 16 bytes only.
pub is_for-cong :
    (name : ℕ → ℕ) (ip jp : Inode) (d e : Disk) (i : ℕ)
    → ((k : ℕ) → k < dirent_size → entry jp e i k ≡ entry ip d i k)
    → is_for name jp e i ≡ is_for name ip d i
is_for-cong name ip jp d e i h = ground (
  arith,
  h 0 (omega arith),
  h 1 (omega arith),
  same_name-cong dirsiz 0 name (de_name (entry jp e i)) (de_name (entry ip d i))
      (λ k l. h (2 + k) (omega arith)),
)

-- What the loop of `dirlookup` answers, from entry `j` on.
abbrev pub LookEnds : (ℕ → ℕ) → ℕ → Inode → Disk → Option (ℕ × ℕ) → Type 0
LookEnds name j ip d none = (i : ℕ) → j ≤ i → i * dirent_size < ip.size → is_for name ip d i ≡ false
LookEnds name j ip d (some (off, inum)) =
    (k : ℕ) × (((j ≤ k) × (k * dirent_size < ip.size))
      × (((off ≡ k * dirent_size) × (inum ≡ de_inum (entry ip d k)))
          × ((is_for name ip d k ≡ true) × ((i : ℕ) → j ≤ i → i < k → is_for name ip d i ≡ false))))

-- The next entries, after one that is not for the name.
next-LookEnds :
    (name : ℕ → ℕ) (j : ℕ) (ip jp : Inode) (d e : Disk) (a : Option (ℕ × ℕ))
    → SameDir ip d jp e
    → ip.size ≤ max_size
    → ip.size % dirent_size ≡ 0
    → is_for name ip d j ≡ false
    → LookEnds name (j + 1) jp e a
    → LookEnds name j ip d a
next-LookEnds name j ip jp d e none s small whole f w = λ i l u. elim (ℕ_discrete j i) [
  | yes q ↦ subst (λ x. is_for name ip d x ≡ false) q f
  | no ne ↦
      sym (is_for-cong name ip jp d e i (λ k lk. s.bytes (i * dirent_size + k) (omega arith)))
      ∙ w i (ground (arith, l, ne)) (ground (arith, u, s.size))
]
next-LookEnds name j ip jp d e (some (off, inum)) s small whole f
      (k, ((lo, up), ((at, is), (t, before)))) =
    let size = s.size in
    let same : (i : ℕ) → i ≤ k → (c : ℕ) → c < dirent_size → entry jp e i c ≡ entry ip d i c =
      λ i l c lc. s.bytes (i * dirent_size + c) (omega arith) in
    (
      k,
      (
        (omega arith, omega arith),
        (
          (
            at,
            is
                ∙ ground (
                  arith,
                  same k (omega arith) 0 (omega arith),
                  same k (omega arith) 1 (omega arith),
                ),
          ),
          (
            sym (is_for-cong name ip jp d e k (same k (omega arith))) ∙ t,
            λ i l u. elim (ℕ_discrete j i) [
              | yes q ↦ subst (λ x. is_for name ip d x ≡ false) q f
              | no ne ↦
                  sym (is_for-cong name ip jp d e i (same i (omega arith)))
                  ∙ before i (ground (arith, l, ne)) u
            ],
          ),
        ),
      ),
    )

-- What the search leaves, and its answer.
abbrev pub Looked : (ℕ → ℕ) → ℕ → Inode → Disk → LookResult → Type 0
Looked name j ip d o =
    (a : Option (ℕ × ℕ)) × ((jp : Inode) × ((e : Disk) × ((o ≡ some (a, (jp, e)))
          × (SameDir ip d jp e × LookEnds name j ip d a))))

pub SameDir-trans :
    (ip jp kp : Inode) (d e f : Disk) → SameDir ip d jp e → SameDir jp e kp f → SameDir ip d kp f
SameDir-trans ip jp kp d e f s t = record {
  dir = t.dir;
  bytes = λ x l. t.bytes x l ∙ s.bytes x l;
  size = t.size ∙ s.size;
  type = t.type ∙ s.type;
}

next-Looked :
    (name : ℕ → ℕ) (j : ℕ) (ip jp : Inode) (d e : Disk) (o : LookResult)
    → IsDir ip d
    → SameDir ip d jp e
    → is_for name ip d j ≡ false
    → Looked name (j + 1) jp e o
    → Looked name j ip d o
next-Looked name j ip jp d e o h s f (a, (kp, (g, (q, (t, w))))) = (
  a,
  (
    kp,
    (
      g,
      (
        q,
        (SameDir-trans ip jp kp d e g s t, next-LookEnds name j ip jp d e a s h.small h.whole f w),
      ),
    ),
  ),
)

look_from-Looked :
    (rounds j : ℕ) (name : ℕ → ℕ) (ip : Inode) (d : Disk)
    → IsDir ip d
    → ip.size ≤ (j + rounds) * dirent_size
    → Looked name j ip d (look_from rounds (j * dirent_size) name ip d)
unfolding look_from look_read look_at
look_from-Looked zero j name ip d h enough =
    (none, (ip, (d, (refl, (SameDir-refl ip d h, λ i l u. absurd (ground (arith, l, u, enough)))))))
look_from-Looked (suc rounds) j name ip d h enough =
    let P : LookResult → Type 0 = Looked name j ip d in
    if-all P (ltb (j * dirent_size) ip.size) _ _
      (λ t.
        let lt : j * dirent_size < ip.size = ground (arith, t) in
        let small = h.small in
        let (r, (q, (n, (got, s)))) = readi-entry j ip d h lt in
        let go : Inode → Disk → LookResult =
          λ jp e. look_from rounds (add_uint (j * dirent_size) dirent_size) name jp e in
        let next : add_uint (j * dirent_size) dirent_size ≡ (j + 1) * dirent_size =
          ground (arith, lt, small) in
        let size = s.size in
        let later : is_for name ip d j ≡ false → P (go r.inode r.disk) = λ f.
          next-Looked name j ip r.inode d r.disk (go r.inode r.disk) h s f (
            subst (λ x. Looked name (j + 1) r.inode r.disk (look_from rounds x name r.inode r.disk))
              (sym next)
              (look_from-Looked rounds (j + 1) name r.inode r.disk s.dir (omega arith))) in
        let inum : de_inum r.buffer ≡ de_inum (entry ip d j) =
          ground (arith, got 0 (omega arith), got 1 (omega arith)) in
        let named : same_name dirsiz 0 name (de_name r.buffer)
            ≡ same_name dirsiz 0 name (de_name (entry ip d j)) =
          same_name-cong dirsiz 0 name (de_name r.buffer) (de_name (entry ip d j))
            (λ k l. got (2 + k) (omega arith)) in
        subst (λ o. P (look_read (j * dirent_size) name o go)) (sym q)
          (subst (λ o. P (look_at (j * dirent_size) name o r.buffer r.inode r.disk go)) (sym n)
            (if-all P (de_inum r.buffer == 0) _ _ (λ z. later (ground (arith, z, inum)))
              (λ nz.
                if-all P (same_name dirsiz 0 name (de_name r.buffer)) _ _
                  (λ y. (
                    some (j * dirent_size, de_inum r.buffer),
                    (
                      r.inode,
                      (
                        r.disk,
                        (
                          refl,
                          (
                            s,
                            (
                              j,
                              (
                                (omega arith, lt),
                                (
                                  (refl, inum),
                                  (
                                    ground (arith, nz, inum, y, named),
                                    λ i l u. absurd (ground (arith, l, u)),
                                  ),
                                ),
                              ),
                            ),
                          ),
                        ),
                      ),
                    ),
                  ))
                  (λ y. later (ground (arith, nz, inum, y, named)))))))
      (λ t.
        (none, (ip, (d, (refl, (SameDir-refl ip d h, λ i l u. absurd (ground (arith, l, u, t))))))))

-- In a directory of whole entries that are all on the disk the search finds the first entry that is
-- in use and has the name, or none if no entry is and has; the bytes of the directory stay.
pub find_dirent-Looked :
    (name : ℕ → ℕ) (dp : Inode) (d : Disk)
    → dp.type ≡ t_dir
    → IsDir dp d
    → Looked name 0 dp d (find_dirent name dp d)
unfolding find_dirent
find_dirent-Looked name dp d type h =
    if-all (Looked name 0 dp d) (dp.type == t_dir) _ _
      (λ t. look_from-Looked (dp.size / dirent_size + 1) 0 name dp d h (omega arith))
      (λ f. absurd (ground (arith, f, type)))
