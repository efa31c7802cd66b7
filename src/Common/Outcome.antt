-- ===== src/Common/Outcome.antt =====
-- What a kernel function comes to, as a value over the state it changes.
use mathlib.Core.Path.{◌≡◌, subst, sym}

-- `exits` is a call of kexit, which does not return; `faults` is undefined behaviour of C (a null
-- pointer, an index out of range, signed overflow).
pub data Outcome {ℓ κ} (S : Type ℓ) (A : Type κ) : Type (ℓ ⊔ κ) where
  returns : A → S → Outcome S A
  exits : S → Outcome S A
  panics : Outcome S A
  faults : Outcome S A

infixl 5 ◌>>=◌ ◌>>◌
abbrev pub ◌>>=◌ {ℓ κ μ} :
    {S : Type ℓ} {A : Type κ} {B : Type μ}
    → (S → Outcome S A)
    → (A → S → Outcome S B)
    → S
    → Outcome S B
◌>>=◌ m f s = elim (m s) [
  | returns a s' ↦ f a s'
  | exits s' ↦ exits s'
  | panics ↦ panics
  | faults ↦ faults
]

abbrev pub ◌>>◌ {ℓ κ μ} :
    {S : Type ℓ} {A : Type κ} {B : Type μ} → (S → Outcome S A) → (S → Outcome S B) → S → Outcome S B
m >> k = m >>= λ _. k

-- A postcondition of every run that returns or exits, and no run faults.
abbrev pub Ensures {ℓ κ} :
    {S : Type ℓ} {A : Type κ} → (A → S → Type 0) → (S → Type 0) → Outcome S A → Type 0
Ensures R E (returns a s) = R a s
Ensures R E (exits s) = E s
Ensures R E panics = Unit
Ensures R E faults = ⊥

module _ {ℓ κ} {S : Type ℓ} {A : Type κ} (R : A → S → Type 0) (E : S → Type 0) where
  -- A postcondition carries over along an equation of runs.
  pub ensured : (o o' : Outcome S A) → o ≡ o' → Ensures R E o' → Ensures R E o
  ensured o o' e h = subst (Ensures R E) (sym e) h

  -- The rule of two steps.
  pub Ensures->>= {μ} :
      {B : Type μ} (Q : B → S → Type 0) (m : S → Outcome S B) (k : B → S → Outcome S A) (s : S)
      → Ensures Q E (m s)
      → ((b : B) (s' : S) → Q b s' → Ensures R E (k b s'))
      → Ensures R E ((m >>= k) s)
  Ensures->>= {B} Q m k s = go (m s)
    where
      go :
          (o : Outcome S B)
          → Ensures Q E o
          → ((b : B) (s' : S) → Q b s' → Ensures R E (k b s'))
          → Ensures R E (elim o [
            | returns b s' ↦ k b s'
            | exits s' ↦ exits s'
            | panics ↦ panics
            | faults ↦ faults
          ])
      go (returns b s') h f = f b s' h
      go (exits s') h f = h
      go panics h f = tt
      go faults h f = h
