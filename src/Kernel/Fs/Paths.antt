-- ===== src/Kernel/Fs/Paths.antt =====
-- kernel/fs.c: the elements of a path. A path is the list of its characters before the 0 that ends
-- it; a name is the list of its characters, DIRSIZ at most, with no 0 after it if there are as many.
pub mod Elements
use os_network_concurrency_s.Common.{
  ℕ, zero, suc, Option, none, some, ◌==◌, if◌then◌else◌, Bool, true, false, List, [], ◌∷◌, take,
}

abbrev pub dirsiz : ℕ
dirsiz = 14

-- The character `/`.
abbrev pub slash : ℕ
slash = 47

-- `while(*path == '/') path++`
unfoldable pub skip_slashes : List ℕ → List ℕ
skip_slashes [] = []
skip_slashes (c ∷ path) = let rest = skip_slashes path in if c == slash then rest else c ∷ path

-- `while(*path != '/' && *path != 0) path++`: what is passed over, and what is left.
unfoldable pub skip_name : List ℕ → List ℕ × List ℕ
skip_name [] = ([], [])
skip_name (c ∷ path) =
    let rest = skip_name path in if c == slash then ([], c ∷ path) else (c ∷ rest.0, rest.1)

-- `skipelem` after the leading slashes
unfoldable pub first_elem : List ℕ → Option (List ℕ × List ℕ)
first_elem [] = none
first_elem (c ∷ path) = let s = skip_name (c ∷ path) in some (take dirsiz s.0, skip_slashes s.1)

-- The name, and the path that is returned.
unfoldable pub skipelem : List ℕ → Option (List ℕ × List ℕ)
skipelem path = first_elem (skip_slashes path)

-- The names that `path = skipelem(path, name)`, repeated until it returns 0, gives one after the
-- other, with the rounds left.
abbrev pub with_rest : Option (List ℕ × List ℕ) → (List ℕ → List (List ℕ)) → List (List ℕ)
with_rest none rest = []
with_rest (some (name, path)) rest = name ∷ rest path

unfoldable pub names : ℕ → List ℕ → List (List ℕ)
names zero path = []
names (suc rounds) path = with_rest (skipelem path) (λ rest. names rounds rest)
