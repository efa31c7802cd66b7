-- ===== src/Kernel/Strings/Compare.antt =====
-- kernel/string.c: memcmp, strncmp, safestrcpy and strlen against lists of bytes.
use os_network_concurrency_s.Common.{
  ℕ, zero, suc, ◌+◌, ◌-◌, ◌≡◌, ◌≢◌, ◌≤◌, ◌<◌, ◌⊎◌, ◌↔◌, ◌==◌, if◌then◌else◌, update, arith, refl,
  List, [], ◌∷◌, some, ℕ_discrete,
}
use os_network_concurrency_s.Kernel.Strings.{
  Bytes, pos, memcmp, strncmp, safestrcpy, safestrcpy_from, strlen_from,
}

abbrev pub range : ℕ → ℕ → Bytes → List ℕ
range p zero m = []
range p (suc n) m = m p ∷ range (p + 1) n m

-- The string at `p`, cut off after `n` bytes.
abbrev pub string_at : ℕ → ℕ → Bytes → List ℕ
string_at p zero m = []
string_at p (suc n) m = if m p == 0 then [] else m p ∷ string_at (p + 1) n m

-- `memcmp` returns 0 exactly if the two ranges hold the same bytes.
pub memcmp-range : (p q n : ℕ) (m : Bytes) → (memcmp p q n m ≡ pos 0) ↔ (range p n m ≡ range q n m)
unfolding memcmp
memcmp-range p q zero m = (λ _. refl, λ _. refl)
memcmp-range p q (suc n) m =
    let rest = memcmp-range (p + 1) (q + 1) n m in (ground (arith, rest.0), ground (arith, rest.1))

-- `strncmp` returns 0 exactly if the two strings agree up to their ends or up to `n` bytes.
pub strncmp-string_at :
    (p q n : ℕ) (m : Bytes) → (strncmp p q n m ≡ pos 0) ↔ (string_at p n m ≡ string_at q n m)
unfolding strncmp
strncmp-string_at p q zero m = (λ _. refl, λ _. refl)
strncmp-string_at p q (suc n) m =
    let rest = strncmp-string_at (p + 1) (q + 1) n m in
    (ground (arith, rest.0), ground (arith, rest.1))

-- When the string at `s` ends within the next `fuel` bytes, the fuel is enough, and the result is
-- the place of its first NUL.
pub strlen_from_lem :
    (fuel n s k : ℕ) (m : Bytes)
    → n ≤ k
    → k < n + fuel
    → m (s + k) ≡ 0
    → ((i : ℕ) → n ≤ i → i < k → m (s + i) ≢ 0)
    → strlen_from fuel n s m ≡ some k
unfolding strlen_from
strlen_from_lem zero n s k m le lt e before = absurd (omega arith)
strlen_from_lem (suc fuel) n s k m le lt e before = elim (ℕ_discrete n k) [
  | yes here ↦ ground (arith, here, e)
  | no later ↦ ground (
    arith,
    before n,
    strlen_from_lem fuel (n + 1) s k m (omega arith) (omega arith) e
        (λ i lo. before i (omega (arith, lo))),
  )
]

string_at-agree :
    (p n : ℕ) (m m' : Bytes)
    → ((a : ℕ) → p ≤ a → a < p + n → m a ≡ m' a)
    → string_at p n m ≡ string_at p n m'
string_at-agree p zero m m' same = refl
string_at-agree p (suc n) m m' same = ground (
  arith,
  same p,
  string_at-agree (p + 1) n m m' (λ a lo hi. same a (omega (arith, lo)) (omega (arith, hi))),
)

safestrcpy_from-string_at :
    (s t n : ℕ) (m : Bytes)
    → (s + n < t) ⊎ (t + n ≤ s)
    → (string_at s (suc n) (safestrcpy_from s t n m) ≡ string_at t n m)
      × ((a : ℕ) → (a < s) ⊎ (s + n < a) → safestrcpy_from s t n m a ≡ m a)
unfolding safestrcpy_from
safestrcpy_from-string_at s t zero m apart = (ground arith, λ a out. ground (arith, out))
safestrcpy_from-string_at s t (suc n) m apart =
    let copied = update m s (m t) in
    let r = safestrcpy_from (s + 1) (t + 1) n copied in
    let rest = safestrcpy_from-string_at (s + 1) (t + 1) n copied (omega (arith, apart)) in
    let same : string_at (t + 1) n copied ≡ string_at (t + 1) n m =
      string_at-agree (t + 1) n copied m (λ a lo hi. ground (arith, apart, lo, hi)) in
    let kept : r s ≡ m t = ground (arith, rest.1 s) in
    elim (ℕ_discrete (m t) 0) [
      | yes ends ↦ (ground (arith, ends), λ a out. ground (arith, ends, out))
      | no goes ↦
          (ground (arith, goes, kept, rest.0, same), λ a out. ground (arith, goes, out, rest.1 a))
    ]

-- A `safestrcpy` of a count that is not 0 between ranges that do not overlap leaves a terminated
-- string: what stands at `s`, cut off after `n` bytes, is the string of `t`, cut off after `n - 1`.
-- No byte outside the `n` bytes at `s` changes.
pub safestrcpy-string_at :
    (s t n : ℕ) (m : Bytes)
    → 0 < n
    → (s + n ≤ t) ⊎ (t + n ≤ s)
    → (string_at s n (safestrcpy s t n m) ≡ string_at t (n - 1) m)
      × ((a : ℕ) → (a < s) ⊎ (s + n ≤ a) → safestrcpy s t n m a ≡ m a)
unfolding safestrcpy
safestrcpy-string_at s t zero m nonempty apart = absurd (omega (arith, nonempty))
safestrcpy-string_at s t (suc n) m nonempty apart =
    let h = safestrcpy_from-string_at s t n m (omega (arith, apart)) in
    (ground (arith, h.0), λ a out. ground (arith, out, h.1 a))
