-- ===== src/Bakery/Queue/Fifo.antt =====
-- Concurrent-Bakery-Sim/main.c: a valid ring is the queue of the customers that it holds.
use os_network_concurrency_s.Common.{
  ℕ, zero, suc, ◌+◌, ◌-◌, ◌%◌, ◌≡◌, ◌≤◌, ◌<◌, none, some, update, true, false, List, [], ◌∷◌, ◌++◌,
  arith, length, refl, ap, ap₂,
}
use os_network_concurrency_s.Bakery.Queue.{Queue, queue_max, my_init, my_enqueue, my_dequeue}

pub record IsValid (q : Queue) : Type 0 where
  pub head_in : q.head < queue_max
  pub count_in : q.count ≤ queue_max
  pub tail_at : q.tail ≡ (q.head + q.count) % queue_max

-- The `n` events from index `h` on, round the end of the array.
abbrev pub window : (ℕ → ℕ) → ℕ → ℕ → List ℕ
window slots h zero = []
window slots h (suc n) = slots h ∷ window slots ((h + 1) % queue_max) n

abbrev pub contents : Queue → List ℕ
contents q = window q.slots q.head q.count

pub length-window : (slots : ℕ → ℕ) (h n : ℕ) → length (window slots h n) ≡ n
length-window slots h zero = refl
length-window slots h (suc n) = ap suc (length-window slots ((h + 1) % queue_max) n)

-- A write behind the window extends it.
window-update :
    (slots : ℕ → ℕ) (x n h i : ℕ)
    → h < queue_max
    → n < queue_max
    → i ≡ (h + n) % queue_max
    → window (update slots i x) h (suc n) ≡ window slots h n ++ (x ∷ [])
window-update slots x zero h i hh hn e = ap (λ (v : ℕ). v ∷ []) (ground arith)
window-update slots x (suc n) h i hh hn e =
    ap₂ ◌∷◌ (ground arith)
      (window-update slots x n ((h + 1) % queue_max) i (omega arith) (omega arith) (omega arith))

window_nonempty :
    (slots : ℕ → ℕ) (h n : ℕ)
    → 0 < n
    → window slots h n ≡ slots h ∷ window slots ((h + 1) % queue_max) (n - 1)
window_nonempty slots h zero lt = absurd (omega arith)
window_nonempty slots h (suc n) lt = ap (λ k. window slots h (suc k)) (omega arith)

pub my_init-IsValid : (q : Queue) → IsValid (my_init q) × (contents (my_init q) ≡ [])
unfolding my_init
my_init-IsValid q = (omega arith, refl)

-- On a valid queue `my_enqueue` answers 1 and appends the customer exactly if fewer than QUEUE_MAX
-- are queued, answers -1 and changes nothing otherwise, and keeps the queue valid.
pub my_enqueue-appends :
    (q : Queue) (x : ℕ)
    → IsValid q
    → IsValid (my_enqueue q x).1
      × (q.count < queue_max
          → ((my_enqueue q x).0 ≡ true) × (contents (my_enqueue q x).1 ≡ contents q ++ (x ∷ [])))
      × (queue_max ≤ q.count → my_enqueue q x ≡ (false, q))
unfolding my_enqueue
my_enqueue-appends q x v = (
  ground arith,
  λ room. (ground arith, ground (arith, window-update q.slots x q.count q.head q.tail)),
  λ full. ground arith,
)

-- On a valid queue `my_dequeue` takes off the customer that has waited longest, or answers NULL and
-- changes nothing if there is none, and keeps the queue valid.
pub my_dequeue-takes :
    (q : Queue)
    → IsValid q
    → IsValid (my_dequeue q).1
      × ((contents q ≡ []) → my_dequeue q ≡ (none, q))
      × ((x : ℕ) (rest : List ℕ)
          → contents q ≡ x ∷ rest
          → ((my_dequeue q).0 ≡ some x) × (contents (my_dequeue q).1 ≡ rest))
unfolding my_dequeue
my_dequeue-takes q v = (
  ground arith,
  λ empty. ground (arith, empty, length-window q.slots q.head q.count),
  λ x rest e. (
    ground (arith, e, window_nonempty q.slots q.head q.count, length-window q.slots q.head q.count),
    ground (arith, e, window_nonempty q.slots q.head q.count, length-window q.slots q.head q.count),
  ),
)
