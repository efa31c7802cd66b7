-- ===== src/Bakery/Shop/Safety.antt =====
-- Concurrent-Bakery-Sim/main.c: what holds in every state that the threads can bring about.
use os_network_concurrency_s.Common.{
  ℕ, ◌+◌, ◌≡◌, ◌≤◌, ◌<◌, true, false, arith, refl, sum_below, sum_below-zero, update,
  sum_below-update, ℕ_discrete,
}
use os_network_concurrency_s.Bakery.Queue.{Queue, my_init, my_enqueue}
use os_network_concurrency_s.Bakery.Queue.Fifo.{my_enqueue-appends}
use os_network_concurrency_s.Bakery.Shop.{
  outside, entered, sitting, Customer, paying, moving, Shop, bakery_capacity, sofa_seats, num_chefs,
  Thread, customer, chef, step, init, Reach, start, later, Runs,
}
use os_network_concurrency_s.Bakery.Shop.Invariant.{
  total, inside, inside_of, has_seat_of, extra_post_of, at_register, Inv,
}
use os_network_concurrency_s.Bakery.Shop.Steps.{customer_step-Inv, room_left}
use os_network_concurrency_s.Bakery.Shop.Chefs.{chef_step-Inv, sofa_room}

init-Inv : (n : ℕ) (standing sofa : Queue) → Inv n (init standing sofa)
unfolding init my_init sum_below
init-Inv n standing sofa = record {
  capacity = omega (arith, sum_below-zero n (λ j. inside outside) (λ _. refl));
  seating = omega (
    arith,
    sum_below-zero n (λ j. has_seat_of (out_customer)) (λ _. refl),
    sum_below-zero n (λ j. extra_post_of (out_customer)) (λ _. refl),
  );
  queued = omega arith;
  one_payment = refl;
  standing_valid = omega arith;
  sofa_valid = omega arith;
  unpaid_before = λ i h. refl;
  standing_joined = λ j h. absurd (omega arith);
  sofa_joined = λ j h. absurd (omega arith);
  chefs_joined = λ k. tt;
}
  where
    out_customer : Customer
    out_customer = record { phase = outside; baked = false; paid = false }

step-Inv : (n : ℕ) (t : Thread) (s : Shop) → Runs n t → Inv n s → Inv n (step t s)
unfolding step
step-Inv n (customer i) s lt inv = customer_step-Inv lt inv (s.customers i).phase refl
step-Inv n (chef k) s lt inv = chef_step-Inv lt inv (s.chefs k) refl

pub Reach-Inv : {n : ℕ} {s : Shop} → Reach n s → Inv n s
Reach-Inv {n} (start standing sofa) = init-Inv n standing sofa
Reach-Inv {n} (later {s} t r allowed) = step-Inv n t s allowed (Reach-Inv r)

-- In every reachable state at most BAKERY_CAPACITY customers are in the bakery, and the semaphore
-- num_of_cus holds exactly the free places.
pub Reach-capacity :
    {n : ℕ} {s : Shop}
    → Reach n s
    → (total inside_of n s.customers ≤ bakery_capacity)
      × (s.cus + total inside_of n s.customers ≡ bakery_capacity)
Reach-capacity r = omega (arith, (Reach-Inv r).capacity)

-- In every reachable state the queues have room whenever a thread is about to use them: a customer
-- that has entered is never turned away by `standing` or by `sofa`, and neither is the customer that
-- a chef moves to the sofa.
pub Reach-enqueues :
    {n : ℕ} {s : Shop}
    → Reach n s
    → ((i : ℕ) → i < n → (s.customers i).phase ≡ entered → (my_enqueue s.standing i).0 ≡ true)
      × ((i : ℕ) → i < n → (s.customers i).phase ≡ sitting → (my_enqueue s.sofa i).0 ≡ true)
      × ((k c : ℕ) → k < num_chefs → s.chefs k ≡ moving c → (my_enqueue s.sofa c).0 ≡ true)
Reach-enqueues {n} {s} r = (
  λ i lt e.
      ((my_enqueue-appends s.standing i inv.standing_valid).1
        (omega (arith, inv.queued, room_left lt inv (rw e) (rw e)))).0,
  λ i lt e.
      ((my_enqueue-appends s.sofa i inv.sofa_valid).1
        (omega (arith, inv.queued, room_left lt inv (rw e) (rw e)))).0,
  λ k c lt e. ((my_enqueue-appends s.sofa c inv.sofa_valid).1 (sofa_room lt inv (rw e))).0,
)
  where
    inv : Inv n s
    inv = Reach-Inv r

two_of_sum :
    (n : ℕ) (f : ℕ → ℕ) (i j : ℕ) → sum_below n f ≤ 1 → i < n → j < n → f i ≡ 1 → f j ≡ 1 → i ≡ j
two_of_sum n f i j le hi hj ei ej = elim (ℕ_discrete i j) [
  | yes same ↦ same
  | no ne ↦
      absurd
        (ground (arith, sum_below-update n f i 0 hi, sum_below-update n (update f i 0) j 0 hj, ne))
]

-- In every reachable state at most one chef is taking a payment.
pub Reach-one_payment :
    {n : ℕ} {s : Shop}
    → Reach n s
    → (k l c d : ℕ) → k < num_chefs
    → l < num_chefs
    → s.chefs k ≡ paying c
    → s.chefs l ≡ paying d
    → k ≡ l
Reach-one_payment {s} r k l c d hk hl ek el =
    two_of_sum num_chefs (λ j. at_register (s.chefs j)) k l
      (ground (arith, (Reach-Inv r).one_payment)) hk hl (rw ek) (rw el)

-- In every reachable state num_of_seats and the units taken from it add up to SOFA_SEATS and one
-- more for each customer that queued up standing and has left: those post a seat that they never
-- took.
pub Reach-seats :
    {n : ℕ} {s : Shop}
    → Reach n s
    → s.seats + total has_seat_of n s.customers ≡ sofa_seats + total extra_post_of n s.customers
Reach-seats r = (Reach-Inv r).seating
