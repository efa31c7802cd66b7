-- ===== src/Kernel/Console/Window.antt =====
-- kernel/console.c: the circular buffer as lists, and the invariant of its indices.
use mathlib.Core.Path.{subst}
use os_network_concurrency_s.Common.{
  ℕ, zero, suc, ◌+◌, ◌%◌, ◌^◌, ◌≡◌, ◌≤◌, ◌<◌, List, [], ◌∷◌, ◌++◌, update, add_uint, sub_uint,
  arith, refl, ap, ap₂, ◌∙◌,
}
use os_network_concurrency_s.Kernel.Console.{Cons, input_buf_size}

-- The `n` bytes from the index `i` on.
abbrev pub window : (ℕ → ℕ) → ℕ → ℕ → List ℕ
window buf i zero = []
window buf i (suc n) = buf (i % input_buf_size) ∷ window buf (add_uint i 1) n

-- What the readers can have.
abbrev pub committed : Cons → List ℕ
committed s = window s.buf s.r (sub_uint s.w s.r)

pub record IsValid (s : Cons) : Type 0 where
  pub words : (s.r < 2 ^ 32) × ((s.w < 2 ^ 32) × (s.e < 2 ^ 32))
  pub ordered : sub_uint s.w s.r ≤ sub_uint s.e s.r
  pub bounded : sub_uint s.e s.r ≤ input_buf_size

pub window-append :
    (buf : ℕ → ℕ) (i a b : ℕ)
    → i < 2 ^ 32
    → window buf i (a + b) ≡ window buf i a ++ window buf (add_uint i a) b
window-append buf i zero b lt = ap₂ (window buf) (omega (arith, lt)) (omega arith)
window-append buf i (suc a) b lt =
    let e : suc a + b ≡ suc (a + b) = omega arith in
    let next : add_uint (add_uint i 1) a ≡ add_uint i (suc a) = omega arith in
    ap (window buf i) e
    ∙ ap (λ l. buf (i % input_buf_size) ∷ l)
        (window-append buf (add_uint i 1) a b (omega arith)
          ∙ ap (λ k. window buf (add_uint i 1) a ++ window buf k b) next)

-- A write behind the window does not change it.
pub window-update :
    (buf : ℕ → ℕ) (i j n c : ℕ)
    → i < 2 ^ 32
    → n ≤ j
    → j < input_buf_size
    → window (update buf (add_uint i j % input_buf_size) c) i n ≡ window buf i n
window-update buf i j zero c lt le room = refl
window-update buf i zero (suc n) c lt le room = absurd (omega (arith, le))
window-update buf i (suc j) (suc n) c lt le room =
    let j' : add_uint (add_uint i 1) j ≡ add_uint i (suc j) = omega arith in
    ap₂ ◌∷◌ (ground (arith, lt, room)) (
      subst
        (λ k.
          window (update buf (k % input_buf_size) c) (add_uint i 1) n ≡ window buf (add_uint i 1) n)
        j'
        (window-update buf (add_uint i 1) j n c (omega arith) (omega (arith, le))
          (omega (arith, room))))

-- The byte that is stored at the edit index is behind everything up to that index.
pub window-stored :
    (s : Cons) (c n : ℕ)
    → IsValid s
    → sub_uint s.e s.r < input_buf_size
    → n ≤ sub_uint s.e s.r
    → window (update s.buf (s.e % input_buf_size) c) s.r n ≡ window s.buf s.r n
window-stored s c n v room le =
    let at_end : add_uint s.r (sub_uint s.e s.r) ≡ s.e = omega (arith, v.words) in
    subst (λ k. window (update s.buf (k % input_buf_size) c) s.r n ≡ window s.buf s.r n) at_end
      (window-update s.buf s.r (sub_uint s.e s.r) n c v.words.0 le room)
