-- ===== src/User/Grep.antt =====
-- user/grep.c: the matcher. A string is the list of its characters before the 0 that ends it.
pub mod Language
mod Tests
use os_network_concurrency_s.Common.{ℕ, ◌==◌, if◌then◌else◌, Bool, true, false, ◌||◌, List, [], ◌∷◌}

-- The characters `*`, `.`, `$` and `^`.
abbrev pub star : ℕ
star = 42

abbrev pub dot : ℕ
dot = 46

abbrev pub dollar : ℕ
dollar = 36

abbrev pub caret : ℕ
caret = 94

-- `*text == '\0'`
abbrev pub at_end : List ℕ → Bool
at_end [] = true
at_end (x ∷ text) = false

-- `matchstar(c, re, text)`, where `here` is `matchhere(re, -)`
unfoldable pub matchstar : ℕ → (List ℕ → Bool) → List ℕ → Bool
matchstar c here [] = here []
matchstar c here (x ∷ text) =
    let rest = matchstar c here text in
    if here (x ∷ text) then true else if x == c || c == dot then rest else false

-- The last test of `matchhere`; `here` is `matchhere(re+1, -)`
abbrev pub matchone : ℕ → (List ℕ → Bool) → List ℕ → Bool
matchone c here [] = false
matchone c here (x ∷ text) = if c == dot || c == x then here text else false

unfoldable pub matchhere : List ℕ → List ℕ → Bool
matchhere [] text = true
matchhere (c ∷ []) text = if c == dollar then at_end text else matchone c (λ t. true) text
matchhere (c ∷ d ∷ re) text =
    let here = matchhere re in
    let next = matchhere (d ∷ re) in
    if d == star then matchstar c here text else matchone c next text

-- The loop of `match`
unfoldable pub match_from : List ℕ → List ℕ → Bool
match_from re [] = matchhere re []
match_from re (x ∷ text) =
    let rest = match_from re text in if matchhere re (x ∷ text) then true else rest

unfoldable pub match : List ℕ → List ℕ → Bool
match [] text = match_from [] text
match (c ∷ re) text = if c == caret then matchhere re text else match_from (c ∷ re) text
