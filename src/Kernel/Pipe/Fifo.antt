-- ===== src/Kernel/Pipe/Fifo.antt =====
-- kernel/pipe.c: the bytes in a pipe are a queue of at most PIPESIZE, also when the counters wrap.
use os_network_concurrency_s.Common.{
  ℕ, zero, suc, ◌-◌, ◌%◌, ◌^◌, ◌≡◌, ◌≤◌, ◌<◌, ◌↔◌, update, true, false, List, [], ◌∷◌, ◌++◌, arith,
  length, refl, ap, ap₂, ◌∙◌, sym, add_uint, sub_uint,
}
use os_network_concurrency_s.Kernel.Pipe.{
  Pipe, pipe_size, is_full, is_empty, put, front, drop_front,
}

-- The number of bytes in the pipe, by the wrapping counters.
abbrev pub used : Pipe → ℕ
used pi = sub_uint pi.nwrite pi.nread

pub record IsValid (pi : Pipe) : Type 0 where
  pub read_word : pi.nread < 2 ^ 32
  pub write_word : pi.nwrite < 2 ^ 32
  pub bounded : used pi ≤ pipe_size

-- The `n` bytes from counter `r` on.
abbrev pub window : (ℕ → ℕ) → ℕ → ℕ → List ℕ
window bytes r zero = []
window bytes r (suc n) = bytes (r % pipe_size) ∷ window bytes (add_uint r 1) n

abbrev pub contents : Pipe → List ℕ
contents pi = window pi.bytes pi.nread (used pi)

pub length-window : (bytes : ℕ → ℕ) (r n : ℕ) → length (window bytes r n) ≡ n
length-window bytes r zero = refl
length-window bytes r (suc n) = ap suc (length-window bytes (add_uint r 1) n)

pub window-put :
    (bytes : ℕ → ℕ) (x n r i : ℕ)
    → r < 2 ^ 32
    → n < pipe_size
    → i ≡ add_uint r n % pipe_size
    → window (update bytes i x) r (suc n) ≡ window bytes r n ++ (x ∷ [])
window-put bytes x zero r i hr hn e = ap (λ (v : ℕ). v ∷ []) (ground arith)
window-put bytes x (suc n) r i hr hn e =
    ap₂ ◌∷◌ (ground arith)
      (window-put bytes x n (add_uint r 1) i (omega arith) (omega arith) (omega arith))

window_nonempty :
    (bytes : ℕ → ℕ) (r n : ℕ)
    → 0 < n
    → window bytes r n ≡ bytes (r % pipe_size) ∷ window bytes (add_uint r 1) (n - 1)
window_nonempty bytes r zero lt = absurd (omega arith)
window_nonempty bytes r (suc n) lt = ap (λ k. window bytes r (suc k)) (omega arith)

-- The test for a full pipe holds exactly if it holds PIPESIZE bytes, and the one for an empty pipe
-- exactly if it holds none, whatever the counters have wrapped to.
pub full_empty :
    {pi : Pipe}
    → IsValid pi
    → ((is_full pi ≡ true) ↔ (length (contents pi) ≡ pipe_size))
      × ((is_empty pi ≡ true) ↔ (contents pi ≡ []))
full_empty {pi} v = (
  (
    ground (arith, length-window pi.bytes pi.nread (used pi)),
    ground (arith, length-window pi.bytes pi.nread (used pi)),
  ),
  (λ e. ground (arith, e), λ e. ground (arith, e, length-window pi.bytes pi.nread (used pi))),
)

-- Writing a byte into a pipe that is not full appends it.
pub put-appends :
    {pi : Pipe} (x : ℕ)
    → IsValid pi
    → is_full pi ≡ false
    → IsValid (put pi x) × (contents (put pi x) ≡ contents pi ++ (x ∷ []))
put-appends {pi} x v room = (
  record { read_word = v.read_word; write_word = omega arith; bounded = ground (arith, grows) },
  ap (window (put pi x).bytes pi.nread) grows
      ∙ window-put pi.bytes x (used pi) pi.nread (pi.nwrite % pipe_size) v.read_word less
          (ground arith),
)
  where
    less : used pi < pipe_size
    less = ground arith

    grows : used (put pi x) ≡ suc (used pi)
    grows = ground arith

-- Taking the front byte of a pipe that is not empty.
pub drop_front-takes :
    {pi : Pipe}
    → IsValid pi
    → is_empty pi ≡ false
    → IsValid (drop_front pi) × (contents pi ≡ front pi ∷ contents (drop_front pi))
drop_front-takes {pi} v more = (
  record { read_word = omega arith; write_word = v.write_word; bounded = omega (arith, shrinks) },
  window_nonempty pi.bytes pi.nread (used pi) some_used
      ∙ ap (λ n. front pi ∷ window pi.bytes (add_uint pi.nread 1) n) (sym shrinks),
)
  where
    some_used : 0 < used pi
    some_used = ground arith

    shrinks : used (drop_front pi) ≡ used pi - 1
    shrinks = ground arith
