-- ===== src/Bakery/Shop/Invariant.antt =====
-- Concurrent-Bakery-Sim/main.c: what the semaphores and the queues count.
use os_network_concurrency_s.Common.{
  ℕ, ◌+◌, ◌%◌, ◌≡◌, ◌≤◌, ◌<◌, update, Bool, true, false, sum_below, sum_below-change, arith,
}
use os_network_concurrency_s.Bakery.Queue.{Queue, queue_max}
use os_network_concurrency_s.Bakery.Queue.Fifo.{IsValid}
use os_network_concurrency_s.Bakery.Shop.{
  Phase, outside, refused, entered, sitting, waiting, leaving, seat_posted, gone, Customer, Chef,
  idle, baking, ready, paying, accepted, served, moving, Shop, bakery_capacity, sofa_seats,
  num_chefs,
}

abbrev pub total {ℓ} : {A : Type ℓ} → (A → ℕ) → ℕ → (ℕ → A) → ℕ
total w n f = sum_below n (λ j. w (f j))

pub total-update {ℓ} :
    {A : Type ℓ} (w : A → ℕ) (n : ℕ) (f : ℕ → A) (i : ℕ) (a : A)
    → i < n
    → total w n (update f i a) + w (f i) ≡ total w n f + w a
total-update w n f i a lt =
    ground (
      arith,
      sum_below-change n (λ j. w (f j)) (λ j. w (update f i a j)) i (λ j ne. ground arith) lt,
    )

-- Between `sem_trywait(&num_of_cus)` and `sem_post(&num_of_cus)`.
abbrev pub inside : Phase → ℕ
inside outside = 0
inside refused = 0
inside (gone sat) = 0
inside _ = 1

-- Holds a unit that it took from num_of_seats.
abbrev pub has_seat : Phase → ℕ
has_seat sitting = 1
has_seat (waiting true) = 1
has_seat (leaving true) = 1
has_seat _ = 0

-- Has posted num_of_seats without having taken a unit.
abbrev pub extra_post : Phase → ℕ
extra_post (seat_posted false) = 1
extra_post (gone false) = 1
extra_post _ = 0

abbrev pub joined : Phase → Bool
joined outside = false
joined refused = false
joined entered = false
joined sitting = false
joined _ = true

-- Waits in the shop and has not been marked as paid.
abbrev pub unpaid : Phase → Bool → ℕ
unpaid (waiting sat) false = 1
unpaid _ _ = 0

abbrev pub inside_of : Customer → ℕ
inside_of c = inside c.phase

abbrev pub has_seat_of : Customer → ℕ
has_seat_of c = has_seat c.phase

abbrev pub extra_post_of : Customer → ℕ
extra_post_of c = extra_post c.phase

abbrev pub unpaid_of : Customer → ℕ
unpaid_of c = unpaid c.phase c.paid

-- Serves or moves a customer that has not been marked as paid.
abbrev pub busy : Chef → ℕ
busy idle = 0
busy (served c) = 0
busy _ = 1

abbrev pub at_register : Chef → ℕ
at_register (paying c) = 1
at_register _ = 0

abbrev pub bit : Bool → ℕ
bit true = 1
bit false = 0

-- A customer that has queued up.
abbrev pub Joined : ℕ → Shop → ℕ → Type 0
Joined n s c = (c < n) × (joined (s.customers c).phase ≡ true)

abbrev pub QueueJoined : ℕ → Shop → Queue → Type 0
QueueJoined n s q = (j : ℕ) → j < q.count → Joined n s (q.slots ((q.head + j) % queue_max))

-- The customer that a chef has to do with.
abbrev pub ChefJoined : ℕ → Shop → Chef → Type 0
ChefJoined n s idle = Unit
ChefJoined n s (baking c) = Joined n s c
ChefJoined n s (ready c) = Joined n s c
ChefJoined n s (paying c) = Joined n s c
ChefJoined n s (accepted c) = Joined n s c
ChefJoined n s (served c) = Joined n s c
ChefJoined n s (moving c) = Joined n s c

pub record Inv (n : ℕ) (s : Shop) : Type 0 where
  pub capacity : s.cus + total inside_of n s.customers ≡ bakery_capacity
  pub seating :
      s.seats + total has_seat_of n s.customers ≡ sofa_seats + total extra_post_of n s.customers
  pub queued :
      s.standing.count + s.sofa.count + total busy num_chefs s.chefs ≤ total unpaid_of n s.customers
  pub one_payment : total at_register num_chefs s.chefs ≡ bit s.register
  pub standing_valid : IsValid s.standing
  pub sofa_valid : IsValid s.sofa
  pub unpaid_before : (i : ℕ) → joined (s.customers i).phase ≡ false → (s.customers i).paid ≡ false
  pub standing_joined : QueueJoined n s s.standing
  pub sofa_joined : QueueJoined n s s.sofa
  pub chefs_joined : (k : ℕ) → ChefJoined n s (s.chefs k)
