-- ===== src/User/Grep/Tests.antt =====
-- user/grep.c: patterns and texts.
use os_network_concurrency_s.Common.{ℕ, true, false, List, [], ◌∷◌, ◌≡◌, ◌↔◌, refl}
use os_network_concurrency_s.User.Grep.{star, dot, dollar, matchstar, matchhere, match_from, match}
use os_network_concurrency_s.User.Grep.Language.{Found, match-Found}

-- `a.*b$`
abbrev pattern_ab : List ℕ
pattern_ab = 97 ∷ dot ∷ star ∷ 98 ∷ dollar ∷ []

abbrev text_ab : List ℕ
text_ab = 120 ∷ 97 ∷ 99 ∷ 98 ∷ 98 ∷ []

finds : match pattern_ab text_ab ≡ true
unfolding match match_from matchhere matchstar
finds = refl

refuses : match pattern_ab (97 ∷ 98 ∷ 99 ∷ []) ≡ false
unfolding match match_from matchhere matchstar
refuses = refl

match-Found_example : (match pattern_ab text_ab ≡ true) ↔ Found pattern_ab text_ab
match-Found_example = match-Found pattern_ab text_ab
