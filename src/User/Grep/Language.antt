-- ===== src/User/Grep/Language.antt =====
-- user/grep.c: patterns as lists of items, the texts that they describe, and that the matcher finds them.
use os_network_concurrency_s.Common.{
  ℕ, ◌==◌, if◌then◌else◌, Bool, true, false, ◌||◌, List, [], ◌∷◌, ◌++◌, ◌≡◌, ◌↔◌, arith, refl, sym,
  ap, Bool-cases, inl, inr,
}
use os_network_concurrency_s.User.Grep.{
  star, dot, dollar, caret, at_end, matchstar, matchone, matchhere, match_from, match,
}
use mathlib.Core.Path.{subst}

-- A dot stands for any character, all others for themselves.
pub data Item : Type 0 where
  one : ℕ → Item
  many : ℕ → Item
  end : Item

-- A `$` is special at the end of a pattern, a `*` after a character.
pub items : List ℕ → List Item
items [] = []
items (c ∷ []) = if c == dollar then end ∷ [] else one c ∷ []
items (c ∷ d ∷ re) =
    let rest = items re in
    let next = items (d ∷ re) in if d == star then many c ∷ rest else one c ∷ next

abbrev pub accepts : ℕ → ℕ → Bool
accepts c x = c == dot || c == x

pub AllAccepted : ℕ → List ℕ → Type 0
AllAccepted c [] = Unit
AllAccepted c (x ∷ text) = (accepts c x ≡ true) × AllAccepted c text

-- The text begins with a part that the items describe.
pub Begins : List Item → List ℕ → Type 0
Begins [] text = Unit
Begins (one c ∷ re) text =
    (x : ℕ) × ((rest : List ℕ) × ((text ≡ x ∷ rest) × ((accepts c x ≡ true) × Begins re rest)))
Begins (many c ∷ re) text =
    (run : List ℕ) × ((rest : List ℕ) × ((text ≡ run ++ rest)
        × (AllAccepted c run × Begins re rest)))
Begins (end ∷ re) text = (text ≡ []) × Begins re text

-- The texts in which a pattern is found; `^` stands for the start at the start of the pattern only.
pub Found : List ℕ → List ℕ → Type 0
Found [] text = Unit
Found (c ∷ re) text =
    if c == caret
    then Begins (items re) text
    else (before : List ℕ) × ((rest : List ℕ) × ((text ≡ before ++ rest)
          × Begins (items (c ∷ re)) rest))

-- A test on the rest of a text decides a predicate.
abbrev Decides : (List ℕ → Bool) → (List ℕ → Type 0) → Type 0
Decides test P = (text : List ℕ) → (test text ≡ true) ↔ P text

choose :
    (b : Bool) (p q : Bool) (re re' : List Item) (text : List ℕ)
    → (p ≡ true) ↔ Begins re text
    → (q ≡ true) ↔ Begins re' text
    → ((if b then p else q) ≡ true) ↔ Begins (if b then re else re') text
choose true p q re re' text f g = f
choose false p q re re' text f g = g

end-Decides : Decides at_end (Begins (end ∷ []))
unfolding Begins
end-Decides [] = (λ e. (refl, tt), λ b. refl)
end-Decides (x ∷ text) = (λ e. absurd (ground (arith, e)), λ b. absurd (ground (arith, b.0)))

one-Decides :
    (c : ℕ) (re : List Item) (here : List ℕ → Bool)
    → Decides here (Begins re)
    → Decides (matchone c here) (Begins (one c ∷ re))
unfolding Begins
one-Decides c re here h [] =
    (λ e. absurd (ground (arith, e)), λ (x, (rest, (q, b))). absurd (ground (arith, q)))
one-Decides c re here h (x ∷ text) = (
  λ e. (x, (text, (refl, (ground (arith, e), (h text).0 (ground (arith, e)))))),
  λ (y, (rest, (q, (a, b)))).
      let head : x ≡ y = ground (arith, q) in
      let tail : text ≡ rest = ground (arith, q) in
      ground (arith, a, head, (h text).1 (subst (Begins re) (sym tail) b)),
)

star-Begins :
    (c : ℕ) (re : List Item) (here : List ℕ → Bool) (text : List ℕ)
    → Decides here (Begins re)
    → matchstar c here text ≡ true
    → Begins (many c ∷ re) text
unfolding Begins AllAccepted matchstar
star-Begins c re here [] h e = ([], ([], (refl, (tt, (h []).0 e))))
star-Begins c re here (x ∷ text) h e = elim (Bool-cases (here (x ∷ text))) [
  | inl t ↦ ([], (x ∷ text, (refl, (tt, (h (x ∷ text)).0 t))))
  | inr f ↦
      let (run, (rest, (q, (all, b)))) = star-Begins c re here text h (ground (arith, e, f)) in
      (x ∷ run, (rest, (ap (λ l. x ∷ l) q, ((ground (arith, e, f), all), b))))
]

star-found :
    (c : ℕ) (here : List ℕ → Bool) (run rest : List ℕ)
    → AllAccepted c run
    → here rest ≡ true
    → matchstar c here (run ++ rest) ≡ true
unfolding matchstar AllAccepted
star-found c here [] [] all h = h
star-found c here [] (x ∷ rest) all h = ground (arith, h)
star-found c here (x ∷ run) rest (a, all) h = ground (arith, a, star-found c here run rest all h)

star-Decides :
    (c : ℕ) (re : List Item) (here : List ℕ → Bool)
    → Decides here (Begins re)
    → Decides (matchstar c here) (Begins (many c ∷ re))
unfolding Begins
star-Decides c re here h text = (
  star-Begins c re here text h,
  λ (run, (rest, (q, (all, b)))).
      subst (λ t. matchstar c here t ≡ true) (sym q)
        (star-found c here run rest all ((h rest).1 b)),
)

nil-Decides : Decides (λ t. true) (Begins [])
unfolding Begins
nil-Decides text = (λ e. tt, λ b. refl)

matchhere-Decides : (re : List ℕ) → Decides (matchhere re) (Begins (items re))
unfolding matchhere items
matchhere-Decides [] text = nil-Decides text
matchhere-Decides (c ∷ []) text =
    choose (c == dollar) (at_end text) (matchone c (λ t. true) text) (end ∷ []) (one c ∷ []) text
      (end-Decides text) (one-Decides c [] (λ t. true) nil-Decides text)
matchhere-Decides (c ∷ d ∷ re) text =
    choose (d == star) (matchstar c (matchhere re) text) (matchone c (matchhere (d ∷ re)) text)
      (many c ∷ items re) (one c ∷ items (d ∷ re)) text
      (star-Decides c (items re) (matchhere re) (matchhere-Decides re) text)
      (one-Decides c (items (d ∷ re)) (matchhere (d ∷ re)) (matchhere-Decides (d ∷ re)) text)

nil_tail : (before rest : List ℕ) → [] ≡ before ++ rest → rest ≡ []
nil_tail [] rest q = sym q
nil_tail (x ∷ before) rest q = absurd (ground (arith, q))

shifted :
    (re : List ℕ) (x : ℕ) (text before rest : List ℕ)
    → x ∷ text ≡ before ++ rest
    → Begins (items re) rest
    → ((before : List ℕ) × ((rest : List ℕ) × ((text ≡ before ++ rest) × Begins (items re) rest))
        → match_from re text ≡ true)
    → match_from re (x ∷ text) ≡ true
unfolding match_from
shifted re x text [] rest q b later =
    ground (arith, (matchhere-Decides re (x ∷ text)).1 (subst (Begins (items re)) (sym q) b))
shifted re x text (y ∷ before) rest q b later =
    let tail : text ≡ before ++ rest = ground (arith, q) in
    ground (arith, later (before, (rest, (tail, b))))

match_from-Decides :
    (re : List ℕ)
    → Decides (match_from re) (λ text.
      (before : List ℕ) × ((rest : List ℕ) × ((text ≡ before ++ rest) × Begins (items re) rest)))
unfolding match_from
match_from-Decides re [] = (
  λ e. ([], ([], (refl, (matchhere-Decides re []).0 e))),
  λ (before, (rest, (q, b))).
      (matchhere-Decides re []).1 (subst (Begins (items re)) (nil_tail before rest q) b),
)
match_from-Decides re (x ∷ text) = (
  λ e. elim (Bool-cases (matchhere re (x ∷ text))) [
    | inl t ↦ ([], (x ∷ text, (refl, (matchhere-Decides re (x ∷ text)).0 t)))
    | inr f ↦
        let (before, (rest, (q, b))) = (match_from-Decides re text).0 (ground (arith, e, f)) in
        (x ∷ before, (rest, (ap (λ l. x ∷ l) q, b)))
  ],
  λ (before, (rest, (q, b))). shifted re x text before rest q b ((match_from-Decides re text).1),
)

always : (text : List ℕ) → match_from [] text ≡ true
unfolding match_from matchhere
always [] = refl
always (x ∷ text) = refl

choose_type :
    (b : Bool) (p q : Bool) (P Q : Type 0)
    → (p ≡ true) ↔ P
    → (q ≡ true) ↔ Q
    → ((if b then p else q) ≡ true) ↔ (if b then P else Q)
choose_type true p q P Q f g = f
choose_type false p q P Q f g = g

-- `match` decides whether the pattern, read as a list of items, describes a part of the text:
-- its beginning if the pattern starts with `^`, any part otherwise.
pub match-Found : (re text : List ℕ) → (match re text ≡ true) ↔ Found re text
unfolding match Found
match-Found [] text = (λ e. tt, λ b. always text)
match-Found (c ∷ re) text =
    choose_type (c == caret) (matchhere re text) (match_from (c ∷ re) text) _ _
      (matchhere-Decides re text) (match_from-Decides (c ∷ re) text)
