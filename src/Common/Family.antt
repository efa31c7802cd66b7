-- ===== src/Common/Family.antt =====
-- Arrays as functions of the index: a write at one index, and sums over the first `n`.
use native.Mathlib.Decide.{dec_lt}
use Prim.Native.Nat.{ℕ, zero, suc, ◌+◌, ◌≤◌, ◌<◌}
use mathlib.Core.Path.{◌≡◌, refl}
use mathlib.Core.Logic.{◌≢◌}
use native.Mathlib.Omega.{arith}
use os_network_concurrency_s.Common.Tests.{◌==◌, if◌then◌else◌}

-- An array after `a[i] = v`.
abbrev pub update {ℓ} : {A : Type ℓ} → (ℕ → A) → ℕ → A → ℕ → A
update a i v j = if i == j then v else a j

-- f 0 + … + f (n - 1)
unfoldable pub sum_below : ℕ → (ℕ → ℕ) → ℕ
sum_below zero f = 0
sum_below (suc n) f = sum_below n f + f n

sum_below-update_of_le :
    (n : ℕ) (f : ℕ → ℕ) (i v : ℕ) → n ≤ i → sum_below n (update f i v) ≡ sum_below n f
unfolding sum_below
sum_below-update_of_le zero f i v h = refl
sum_below-update_of_le (suc n) f i v h = ground (arith, sum_below-update_of_le n f i v)

pub sum_below-update :
    (n : ℕ) (f : ℕ → ℕ) (i v : ℕ) → i < n → sum_below n (update f i v) + f i ≡ sum_below n f + v
unfolding sum_below
sum_below-update zero f i v h = absurd (omega arith)
sum_below-update (suc n) f i v h = elim (dec_lt i n) [
  | yes below ↦ ground (arith, sum_below-update n f i v below)
  | no last ↦ ground (arith, sum_below-update_of_le n f i v)
]

pub sum_below-le : (n : ℕ) (f : ℕ → ℕ) → ((i : ℕ) → i < n → f i ≤ 1) → sum_below n f ≤ n
unfolding sum_below
sum_below-le zero f h = omega arith
sum_below-le (suc n) f h = omega (arith, h n, sum_below-le n f (λ i lt. h i (omega arith)))

-- Two arrays that differ at `i` alone.
sum_below-same :
    (n : ℕ) (f g : ℕ → ℕ) → ((j : ℕ) → j < n → g j ≡ f j) → sum_below n g ≡ sum_below n f
unfolding sum_below
sum_below-same zero f g h = refl
sum_below-same (suc n) f g h = omega (arith, h n, sum_below-same n f g (λ j lt. h j (omega arith)))

pub sum_below-change :
    (n : ℕ) (f g : ℕ → ℕ) (i : ℕ)
    → ((j : ℕ) → i ≢ j → g j ≡ f j)
    → i < n
    → sum_below n g + f i ≡ sum_below n f + g i
unfolding sum_below
sum_below-change zero f g i h lt = absurd (omega arith)
sum_below-change (suc n) f g i h lt = elim (dec_lt i n) [
  | yes below ↦ omega (arith, h n (omega arith), sum_below-change n f g i h below)
  | no last ↦
      let e : i ≡ n = omega arith in
      rw e (omega (arith, sum_below-same n f g (λ j lt. h j (omega arith))))
]

pub sum_below_mono : (n : ℕ) (f g : ℕ → ℕ) → ((j : ℕ) → f j ≤ g j) → sum_below n f ≤ sum_below n g
unfolding sum_below
sum_below_mono zero f g h = omega arith
sum_below_mono (suc n) f g h = omega (arith, h n, sum_below_mono n f g h)

-- What counts one thing can be counted in two parts.
pub sum_below-add :
    (n : ℕ) (f g h : ℕ → ℕ)
    → ((j : ℕ) → f j + g j ≡ h j)
    → sum_below n f + sum_below n g ≡ sum_below n h
unfolding sum_below
sum_below-add zero f g h e = omega arith
sum_below-add (suc n) f g h e = omega (arith, e n, sum_below-add n f g h e)

pub sum_below-zero : (n : ℕ) (f : ℕ → ℕ) → ((j : ℕ) → f j ≡ 0) → sum_below n f ≡ 0
unfolding sum_below
sum_below-zero zero f h = refl
sum_below-zero (suc n) f h = omega (arith, h n, sum_below-zero n f h)
