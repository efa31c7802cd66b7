-- ===== src/Kernel/Fs/Paths/Elements.antt =====
-- kernel/fs.c: which names repeated calls of skipelem find.
use os_network_concurrency_s.Common.{
  ℕ, zero, suc, ◌≤◌, ◌≡◌, ◌==◌, if◌then◌else◌, Bool, true, false, List, [], ◌∷◌, take, map, length,
  arith, refl, sym, ap, ◌∙◌, Bool-cases, inl, inr, if-all,
}
use os_network_concurrency_s.Kernel.Fs.Paths.{
  dirsiz, slash, skip_slashes, skip_name, first_elem, skipelem, with_rest, names,
}

-- Whether a path goes on with a character of the same element.
abbrev pub goes_on : List ℕ → Bool
goes_on [] = false
goes_on (c ∷ path) = if c == slash then false else true

-- A character in front of the first element.
abbrev pub prepend : ℕ → List (List ℕ) → List (List ℕ)
prepend c [] = (c ∷ []) ∷ []
prepend c (name ∷ rest) = (c ∷ name) ∷ rest

-- The elements of a path: the longest parts without a slash that are not empty, in order.
pub elements : List ℕ → List (List ℕ)
elements [] = []
elements (c ∷ path) =
    let rest = elements path in
    if c == slash then rest else if goes_on path then prepend c rest else (c ∷ []) ∷ rest

skip_slashes-elements : (path : List ℕ) → elements (skip_slashes path) ≡ elements path
unfolding elements skip_slashes
skip_slashes-elements [] = refl
skip_slashes-elements (c ∷ path) =
    if-all (λ p. elements p ≡ elements (c ∷ path)) (c == slash) (skip_slashes path) (c ∷ path)
      (λ e. skip_slashes-elements path ∙ ground (arith, e)) (λ e. refl)

skip_slashes-starts : (path : List ℕ) → goes_on (skip_slashes path) ≡ false → skip_slashes path ≡ []
unfolding skip_slashes
skip_slashes-starts [] e = refl
skip_slashes-starts (c ∷ path) e = elim (Bool-cases (c == slash)) [
  | inl t ↦ ground (arith, t, e, skip_slashes-starts path)
  | inr f ↦ absurd (ground (arith, f, e))
]

length-skip_slashes : (path : List ℕ) → length (skip_slashes path) ≤ length path
unfolding skip_slashes
length-skip_slashes [] = omega arith
length-skip_slashes (c ∷ path) =
    if-all (λ p. length p ≤ length (c ∷ path)) (c == slash) (skip_slashes path) (c ∷ path)
      (λ e. ground (arith, length-skip_slashes path)) (λ e. omega arith)

length-skip_name : (path : List ℕ) → length (skip_name path).1 ≤ length path
unfolding skip_name
length-skip_name [] = omega arith
length-skip_name (c ∷ path) =
    if-all {A = List ℕ × List ℕ} (λ p. length p.1 ≤ length (c ∷ path)) (c == slash) ([], c ∷ path)
      (c ∷ (skip_name path).0, (skip_name path).1) (λ e. omega arith)
      (λ e. ground (arith, length-skip_name path))

first_shorter :
    (c : ℕ) (path : List ℕ) → (c == slash) ≡ false → length (skip_name (c ∷ path)).1 ≤ length path
unfolding skip_name
first_shorter c path e = ground (arith, e, length-skip_name path)

stops : (path : List ℕ) → goes_on path ≡ false → skip_name path ≡ ([], path)
unfolding skip_name
stops [] e = refl
stops (c ∷ path) e = ground (arith, e)

skip_name-cons :
    (c : ℕ) (path : List ℕ)
    → (c == slash) ≡ false
    → skip_name (c ∷ path) ≡ (c ∷ (skip_name path).0, (skip_name path).1)
unfolding skip_name
skip_name-cons c path e = ground (arith, e)

elements-cons :
    (c : ℕ) (path : List ℕ)
    → (c == slash) ≡ false
    → elements (c ∷ path)
      ≡ (if goes_on path then prepend c (elements path) else (c ∷ []) ∷ elements path)
unfolding elements
elements-cons c path e = ground (arith, e)

skip_name-elements :
    (path : List ℕ)
    → goes_on path ≡ true
    → elements path ≡ (skip_name path).0 ∷ elements (skip_name path).1
skip_name-elements [] e = absurd (ground (arith, e))
skip_name-elements (c ∷ path) e =
    let no_slash : (c == slash) ≡ false = ground (arith, e) in
    let split : List ℕ × List ℕ → List (List ℕ) = λ r. r.0 ∷ elements r.1 in
    elements-cons c path no_slash
    ∙ (if-all (λ l. l ≡ split (c ∷ (skip_name path).0, (skip_name path).1)) (goes_on path) _ _
          (λ t. ap (prepend c) (skip_name-elements path t))
          (λ f. ap (λ r. split (c ∷ r.0, r.1)) (sym (stops path f)))
        ∙ ap split (sym (skip_name-cons c path no_slash)))

elements-nil : elements [] ≡ []
unfolding elements
elements-nil = refl

shorter :
    (p path : List ℕ) (rounds : ℕ)
    → length p ≤ length path
    → length path ≤ rounds
    → length (skip_slashes p) ≤ rounds
shorter p path rounds h le = let l = length-skip_slashes p in omega arith

-- One round, on a path without leading slashes.
round-elements :
    (rounds : ℕ) (path : List ℕ)
    → (goes_on path ≡ false → path ≡ [])
    → length path ≤ suc rounds
    → ((p : List ℕ) → length p ≤ rounds → names rounds p ≡ map (take dirsiz) (elements p))
    → with_rest (first_elem path) (λ rest. names rounds rest) ≡ map (take dirsiz) (elements path)
unfolding first_elem
round-elements rounds [] no_slash le ih = sym (ap (map (take dirsiz)) elements-nil)
round-elements rounds (c ∷ path) no_slash le ih = elim (Bool-cases (c == slash)) [
  | inl t ↦ absurd (ground (arith, no_slash (ground (arith, t))))
  | inr f ↦
      ap (λ l. take dirsiz (skip_name (c ∷ path)).0 ∷ l)
        (ih (skip_slashes (skip_name (c ∷ path)).1)
            (shorter (skip_name (c ∷ path)).1 path rounds (first_shorter c path f) (omega arith))
          ∙ ap (map (take dirsiz)) (skip_slashes-elements (skip_name (c ∷ path)).1))
      ∙ ap (map (take dirsiz)) (sym (skip_name-elements (c ∷ path) (ground (arith, f))))
]

-- With as many rounds as the path has characters, repeated calls of `skipelem`, each on the path
-- that the last one returned, give exactly the elements of the path, in order, each cut to DIRSIZ
-- characters; repeated, leading and trailing slashes make no difference.
pub names-elements :
    (rounds : ℕ) (path : List ℕ)
    → length path ≤ rounds
    → names rounds path ≡ map (take dirsiz) (elements path)
unfolding names skipelem
names-elements zero [] le = sym (ap (map (take dirsiz)) elements-nil)
names-elements zero (c ∷ path) le = absurd (ground (arith, le))
names-elements (suc rounds) path le =
    round-elements rounds (skip_slashes path) (skip_slashes-starts path)
      (let l = length-skip_slashes path in omega arith) (names-elements rounds)
    ∙ ap (map (take dirsiz)) (skip_slashes-elements path)
