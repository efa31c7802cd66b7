-- ===== src/Kernel/Printf/Digits.antt =====
-- kernel/printf.c: which number printint writes, and that it fits.
use os_network_concurrency_s.Common.{
  ℕ, zero, suc, ◌+◌, ◌-◌, ◌*◌, ◌/◌, ◌%◌, ◌^◌, ◌≡◌, ◌≢◌, ◌≤◌, ◌<◌, Option, none, some, ltb, ◌==◌,
  if◌then◌else◌, ℕ_discrete, Bool, true, false, List, [], ◌∷◌, ◌++◌, map, length, length-map,
  length-append, arith, refl, sym, ap, ◌∙◌, if-all,
}
use os_network_concurrency_s.Kernel.Printf.{
  buf_size, digit_char, minus, in_front, digits_from, is_negative, signed, printint,
}

-- The number that digits stand for, the last first.
abbrev pub value : ℕ → List ℕ → ℕ
value base [] = 0
value base (d ∷ ds) = d + base * value base ds

abbrev pub AllBelow : ℕ → List ℕ → Type 0
AllBelow base [] = Unit
AllBelow base (d ∷ ds) = (d < base) × AllBelow base ds

-- The first number that does not fit.
abbrev limit : ℕ → ℕ → ℕ
limit base zero = 1
limit base (suc room) = base * limit base room

-- The leading digit, which is the last of the list.
abbrev pub leading : ℕ → List ℕ → ℕ
leading d [] = d
leading d (e ∷ ds) = leading e ds

-- Whether the list is the notation of a number: a leading 0 only where it is the one digit.
abbrev pub Canonical : List ℕ → Type 0
Canonical [] = ⊥
Canonical (d ∷ []) = Unit
Canonical (d ∷ e ∷ ds) = leading e ds ≢ 0

-- Digits of `x` that fit.
pub record Written (base room x : ℕ) (ds : List ℕ) : Type 0 where
  pub number : value base ds ≡ x
  pub canonical : Canonical ds
  pub digits : AllBelow base ds
  pub fits : length ds ≤ room

-- The two bases in use.
pub data Base : ℕ → Type 0 where
  ten : Base 10
  sixteen : Base 16

-- A digit in front of the notation of a number other than 0.
more-Canonical :
    (base x d : ℕ) (ds : List ℕ) → x ≢ 0 → value base ds ≡ x → Canonical ds → Canonical (d ∷ ds)
more-Canonical base x d [] nz v c = tt
more-Canonical base x d (e ∷ []) nz v c = λ z. nz (sym v ∙ (ground (arith, z)))
more-Canonical base x d (e ∷ f ∷ ds) nz v c = c

more-Written :
    (base room x : ℕ) (ds : List ℕ)
    → Base base
    → x / base ≢ 0
    → Written base room (x / base) ds
    → Written base (suc room) x (x % base ∷ ds)
more-Written base room x ds ten nz w = record {
  number = ground (arith, w.number);
  canonical = more-Canonical 10 (x / 10) (x % 10) ds nz w.number w.canonical;
  digits = (omega arith, w.digits);
  fits = ground (arith, w.fits);
}
more-Written base room x ds sixteen nz w = record {
  number = ground (arith, w.number);
  canonical = more-Canonical 16 (x / 16) (x % 16) ds nz w.number w.canonical;
  digits = (omega arith, w.digits);
  fits = ground (arith, w.fits);
}

last-Written :
    (base room x : ℕ) → Base base → x / base ≡ 0 → Written base (suc room) x (x % base ∷ [])
last-Written base room x ten z = record {
  number = omega arith;
  canonical = tt;
  digits = (omega arith, tt);
  fits = omega arith;
}
last-Written base room x sixteen z = record {
  number = omega arith;
  canonical = tt;
  digits = (omega arith, tt);
  fits = omega arith;
}

smaller : (base l x : ℕ) → Base base → x < base * l → x / base < l
smaller base l x ten lt = omega arith
smaller base l x sixteen lt = omega arith

zero_below : (x : ℕ) → x < 1 → x ≡ 0
zero_below x lt = omega arith

last_digit : (base room x : ℕ) → x / base ≡ 0 → digits_from base (suc room) x ≡ some (x % base ∷ [])
unfolding digits_from
last_digit base room x z =
    if-all {A = Option (List ℕ)} (λ o. o ≡ some (x % base ∷ [])) (x / base == 0) _ _ (λ _. refl)
      (λ f. absurd (ground (arith, z, f)))

next_digit :
    (base room x : ℕ)
    → x / base ≢ 0
    → digits_from base (suc room) x ≡ in_front (x % base) (digits_from base room (x / base))
unfolding digits_from
next_digit base room x nz =
    if-all {A = Option (List ℕ)} (λ o. o ≡ in_front (x % base) (digits_from base room (x / base)))
      (x / base == 0) _ _ (λ t. absurd (ground (arith, nz, t))) (λ _. refl)

in_front-cong :
    (d : ℕ) (o p : Option (List ℕ)) (ds : List ℕ)
    → ((es : List ℕ) → o ≡ some es → p ≡ some es)
    → in_front d o ≡ some ds
    → in_front d p ≡ some ds
in_front-cong d none p ds h q = absurd (ground (arith, q))
in_front-cong d (some es) p ds h q = ap (in_front d) (h es refl) ∙ q

-- More room changes nothing.
more_room :
    (base room x : ℕ) (ds : List ℕ)
    → digits_from base room x ≡ some ds
    → digits_from base (suc room) x ≡ some ds
unfolding digits_from
more_room base zero x ds q = absurd (ground (arith, q))
more_room base (suc room) x ds q = elim (ℕ_discrete (x / base) 0) [
  | yes z ↦ last_digit base (suc room) x z ∙ (sym (last_digit base room x z) ∙ q)
  | no nz ↦
      next_digit base (suc room) x nz
      ∙ in_front-cong (x % base) (digits_from base room (x / base))
          (digits_from base (suc room) (x / base)) ds (λ es e. more_room base room (x / base) es e)
          (sym (next_digit base room x nz) ∙ q)
]

fits_unsigned : (base x : ℕ) → Base base → x < 2 ^ 64 → x < limit base 20
fits_unsigned base x ten lt = omega arith
fits_unsigned base x sixteen lt = omega arith

fits_signed : (base x : ℕ) → Base base → x ≤ 2 ^ 63 → x < limit base 19
fits_signed base x ten lt = omega arith
fits_signed base x sixteen lt = omega arith

digits_from-Written :
    (base room x : ℕ)
    → Base base
    → x < limit base (suc room)
    → (ds : List ℕ) × ((digits_from base (suc room) x ≡ some ds) × Written base (suc room) x ds)
digits_from-Written base zero x b lt =
    let z : x / base ≡ 0 = zero_below (x / base) (smaller base 1 x b lt) in
    (x % base ∷ [], (last_digit base zero x z, last-Written base zero x b z))
digits_from-Written base (suc room) x b lt = elim (ℕ_discrete (x / base) 0) [
  | yes z ↦ (x % base ∷ [], (last_digit base (suc room) x z, last-Written base (suc room) x b z))
  | no nz ↦
      let (ds, (q, w)) =
        digits_from-Written base room (x / base) b (smaller base (limit base (suc room)) x b lt) in
      (
        x % base ∷ ds,
        (
          next_digit base (suc room) x nz ∙ ap (in_front (x % base)) q,
          more-Written base (suc room) x ds b nz w,
        ),
      )
]

-- What `printint` puts into its buffer: the digits of the number, and a minus after them.
abbrev pub PrintsTo : ℕ → ℕ → Bool → List ℕ → Type 0
PrintsTo xx base true buf =
    (ds : List ℕ) × ((buf ≡ map digit_char ds ++ (minus ∷ []))
      × Written base (buf_size - 1) (2 ^ 64 - xx) ds)
PrintsTo xx base false buf =
    (ds : List ℕ) × ((buf ≡ map digit_char ds) × Written base buf_size xx ds)

signed_fits :
    (ds : List ℕ)
    → ltb (length ds) buf_size ≡ true
    → signed true (some ds) ≡ some (map digit_char ds ++ (minus ∷ []))
unfolding signed
signed_fits ds room = ground (arith, room)

printint_of :
    (negative : Bool) (xx base : ℕ)
    → Base base
    → xx < 2 ^ 64
    → (negative ≡ true → 2 ^ 63 ≤ xx)
    → (buf : List ℕ) × ((signed negative
            (digits_from base buf_size (if negative then 2 ^ 64 - xx else xx))
          ≡ some buf)
        × PrintsTo xx base negative buf)
unfolding signed
printint_of true xx base b lt big =
    let x : ℕ = 2 ^ 64 - xx in
    let high = big refl in
    let (ds, (q, w)) = digits_from-Written base 18 x b (fits_signed base x b (omega arith)) in
    let room : ltb (length ds) buf_size ≡ true = ground (arith, w.fits) in
    (
      map digit_char ds ++ (minus ∷ []),
      (ap (signed true) (more_room base 19 x ds q) ∙ signed_fits ds room, (ds, (refl, w))),
    )
printint_of false xx base b lt big =
    let (ds, (q, w)) = digits_from-Written base 19 xx b (fits_unsigned base xx b lt) in
    (map digit_char ds, (ap (signed false) q, (ds, (refl, w))))

PrintsTo-length :
    (xx base : ℕ) (negative : Bool) (buf : List ℕ)
    → PrintsTo xx base negative buf
    → length buf ≤ buf_size
PrintsTo-length xx base true buf (ds, (e, w)) = ground (
  arith,
  ap length e,
  length-append (map digit_char ds) (minus ∷ []),
  length-map ds digit_char,
  w.fits,
)
PrintsTo-length xx base false buf (ds, (e, w)) =
    ground (arith, ap length e, length-map ds digit_char, w.fits)

-- `printint` of 64 bits in base 10 or 16 stays within its buffer of 20 characters. It writes the
-- digits of the number, each below the base, the last first: at least one, and no 0 in front of
-- another digit. A negative number, if `sign` is set, gives the digits of its absolute value and a
-- minus after them.
pub printint-PrintsTo :
    (xx base : ℕ) (sign : Bool)
    → Base base
    → xx < 2 ^ 64
    → (buf : List ℕ) × ((printint xx base sign ≡ some buf)
        × ((length buf ≤ buf_size) × PrintsTo xx base (is_negative sign xx) buf))
unfolding printint
printint-PrintsTo xx base sign b lt =
    let (buf, (q, p)) = printint_of (is_negative sign xx) xx base b lt (λ e. ground (arith, e)) in
    (buf, (q, (PrintsTo-length xx base (is_negative sign xx) buf p, p)))
