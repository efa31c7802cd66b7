-- ===== src/Kernel/File/Counts.antt =====
-- kernel/file.c: `ref` counts the references that the rest of the kernel holds.
use os_network_concurrency_s.Common.{
  ℕ, zero, suc, ◌+◌, ◌-◌, ◌^◌, ◌≡◌, ◌≢◌, ◌≤◌, ◌<◌, Option, none, some, ◌==◌, if◌then◌else◌, update,
  List, [], ◌∷◌, arith, refl, ℕ_discrete,
}
use os_network_concurrency_s.Common.Outcome.{returns}
use os_network_concurrency_s.Kernel.File.{
  nfile, File, Table, find_free, alloc_found, filealloc, filedup, fileclose, Release, nothing,
  release, fd_none,
}

-- How often `f` is in the list of the references that are held.
abbrev pub count : ℕ → List ℕ → ℕ
count f [] = 0
count f (g ∷ gs) = if g == f then count f gs + 1 else count f gs

abbrev pub Counts : Table → List ℕ → Type 0
Counts table held = (f : ℕ) → f < nfile → (table f).ref ≡ count f held

-- What `filealloc` answers: an unused file, or that all are in use.
abbrev pub Allocated : List ℕ → Option ℕ × Table → Type 0
Allocated held (none, table) = Counts table held × ((f : ℕ) → f < nfile → count f held ≢ 0)
Allocated held (some f, table) = (f < nfile) × ((count f held ≡ 0) × Counts table (f ∷ held))

find_free-some :
    (n f : ℕ) (table : Table) (g : ℕ)
    → find_free n f table ≡ some g
    → (g < f + n) × ((table g).ref ≡ 0)
unfolding find_free
find_free-some zero f table g e = absurd (ground (arith, e))
find_free-some (suc n) f table g e = ground (arith, e, find_free-some n (f + 1) table g)

find_free-none :
    (n f : ℕ) (table : Table)
    → find_free n f table ≡ none
    → (g : ℕ) → f ≤ g
    → g < f + n
    → (table g).ref ≢ 0
unfolding find_free
find_free-none zero f table e g lo hi = absurd (omega (arith, lo, hi))
find_free-none (suc n) f table e g lo hi = elim (ℕ_discrete f g) [
  | yes same ↦ ground (arith, e, same)
  | no ne ↦
      find_free-none n (f + 1) table (ground (arith, e)) g (omega (arith, lo, ne))
        (omega (arith, hi))
]

-- A reference more.
counted_more :
    (f n : ℕ) (table : Table) (held : List ℕ)
    → Counts table held
    → n ≡ count f held + 1
    → Counts (update table f (record (table f) { ref = n })) (f ∷ held)
counted_more f n table held c e g lt = elim (ℕ_discrete f g) [
  | yes same ↦ ground (arith, same, e)
  | no ne ↦ ground (arith, ne, c g lt)
]

alloc_found-Allocated :
    (o : Option ℕ) (table : Table) (held : List ℕ)
    → find_free nfile 0 table ≡ o
    → Counts table held
    → Allocated held (alloc_found o table)
unfolding alloc_found
alloc_found-Allocated none table held e c = (
  c,
  λ f lt.
      ground (arith, c f lt, find_free-none nfile 0 table e f (omega arith) (omega (arith, lt))),
)
alloc_found-Allocated (some f) table held e c =
    let found = find_free-some nfile 0 table f e in
    let lt : f < nfile = omega (arith, found.0) in
    let unused : count f held ≡ 0 = ground (arith, c f lt, found.1) in
    (lt, (unused, counted_more f 1 table held c (omega (arith, unused))))

-- When the counts are those of the references that are held, `filealloc` returns a file that nobody
-- holds, and the counts are right with the new reference; it returns 0 only if every file is held.
pub filealloc-Allocated :
    (table : Table) (held : List ℕ) → Counts table held → Allocated held (filealloc table)
unfolding filealloc
filealloc-Allocated table held c = alloc_found-Allocated (find_free nfile 0 table) table held refl c

-- A reference less, with any new value of the file.
counted_less :
    (f : ℕ) (v : File) (table : Table) (held : List ℕ)
    → Counts table (f ∷ held)
    → v.ref ≡ count f held
    → Counts (update table f v) held
counted_less f v table held c e g lt = elim (ℕ_discrete f g) [
  | yes same ↦ ground (arith, same, e)
  | no ne ↦ ground (arith, ne, c g lt)
]

-- Closing a file that is held does not panic. The counts are right without the closed reference, and
-- a pipe or an inode is released only if nobody holds the file any more.
pub fileclose-Counts :
    (f : ℕ) (table : Table) (held : List ℕ)
    → f < nfile
    → Counts table (f ∷ held)
    → (r : Release) × ((t : Table) × ((fileclose f table ≡ returns r t)
          × (Counts t held × (r ≢ nothing → count f held ≡ 0))))
unfolding fileclose
fileclose-Counts f table held lt c =
    let ff = table f in
    let known : ff.ref ≡ count f held + 1 = ground (arith, c f lt) in
    elim (ℕ_discrete (count f held) 0) [
      | yes last ↦
          let v = record ff { ref = 0; type = fd_none } in
          (
            release ff.type ff,
            (
              update table f v,
              (
                ground (arith, known, last),
                (counted_less f v table held c (omega (arith, last)), λ _. last),
              ),
            ),
          )
      | no more ↦
          let v = record ff { ref = ff.ref - 1 } in
          (
            nothing,
            (
              update table f v,
              (
                ground (arith, known, more),
                (counted_less f v table held c (omega (arith, known)), λ h. absurd (h refl)),
              ),
            ),
          )
    ]

-- Duplicating a file that is held, fewer than 2^31 - 1 times, returns it, and the counts are right
-- with the new reference.
pub filedup-Counts :
    (f : ℕ) (table : Table) (held : List ℕ)
    → f < nfile
    → Counts table held
    → 0 < count f held
    → count f held + 1 < 2 ^ 31
    → (t : Table) × ((filedup f table ≡ returns f t) × Counts t (f ∷ held))
unfolding filedup
filedup-Counts f table held lt c used small =
    let known = c f lt in
    let n = (table f).ref + 1 in
    (
      update table f (record (table f) { ref = n }),
      (ground (arith, known, used, small), counted_more f n table held c (omega (arith, known))),
    )
