-- ===== src/Bakery/Shop.antt =====
-- Concurrent-Bakery-Sim/main.c: the threads `Chef` and `customer` over the shared state, one shared
-- access at a time. `sofa_access_lock` is held only around single queue operations, so each such
-- section is one step; the sleeps and the printing are left out, since any interleaving is allowed.
pub mod Invariant
pub mod Steps
pub mod Chefs
pub mod Safety
use os_network_concurrency_s.Common.{
  ℕ, ◌+◌, ◌-◌, ◌<◌, Option, none, some, ltb, ◌==◌, if◌then◌else◌, update, Bool, true, false, ◌&&◌,
}
use os_network_concurrency_s.Bakery.Queue.{Queue, my_init, my_enqueue, my_dequeue, get_count}

abbrev pub bakery_capacity : ℕ
bakery_capacity = 25

abbrev pub sofa_seats : ℕ
sofa_seats = 4

abbrev pub num_chefs : ℕ
num_chefs = 4

-- Where a customer stands. From `waiting` on the flag says which branch was taken: the one with a
-- `sem_trywait(&num_of_seats)` that succeeded, or the one that queues up standing.
pub data Phase : Type 0 where
  outside : Phase
  refused : Phase
  entered : Phase
  sitting : Phase
  waiting : (sat : Bool) → Phase
  leaving : (sat : Bool) → Phase
  seat_posted : (sat : Bool) → Phase
  gone : (sat : Bool) → Phase

-- `event`: `baked` is is_baking, `paid` is is_paying.
pub record Customer : Type 0 where
  pub phase : Phase
  pub baked : Bool
  pub paid : Bool

-- Where a chef stands, with the customer it serves; `moving` has the one that it seats next.
pub data Chef : Type 0 where
  idle : Chef
  baking : (c : ℕ) → Chef
  ready : (c : ℕ) → Chef
  paying : (c : ℕ) → Chef
  accepted : (c : ℕ) → Chef
  served : (c : ℕ) → Chef
  moving : (c : ℕ) → Chef

-- The semaphores num_of_cus and num_of_seats, and cash_register_lock.
pub record Shop : Type 0 where
  pub cus : ℕ
  pub seats : ℕ
  pub register : Bool
  pub standing : Queue
  pub sofa : Queue
  pub customers : ℕ → Customer
  pub chefs : ℕ → Chef

abbrev pub with_phase : ℕ → Phase → Shop → Shop
with_phase i p s = record s {
  customers = update s.customers i (record (s.customers i) { phase = p });
}

abbrev pub with_chef : ℕ → Chef → Shop → Shop
with_chef k c s = record s { chefs = update s.chefs k c }

-- The next step of customer `i`, which is at the given phase.
unfoldable pub customer_step : ℕ → Phase → Shop → Shop
customer_step i outside s =
    if ltb 0 s.cus
    then with_phase i entered (record s { cus = s.cus - 1 })
    else with_phase i refused s
customer_step i refused s = s
customer_step i entered s =
    if get_count s.standing == 0 && ltb 0 s.seats
    then with_phase i sitting (record s { seats = s.seats - 1 })
    else with_phase i (waiting false) (record s { standing = (my_enqueue s.standing i).1 })
customer_step i sitting s =
    with_phase i (waiting true) (record s { sofa = (my_enqueue s.sofa i).1 })
customer_step i (waiting sat) s =
    if (s.customers i).baked && (s.customers i).paid then with_phase i (leaving sat) s else s
customer_step i (leaving sat) s = with_phase i (seat_posted sat) (record s { seats = s.seats + 1 })
customer_step i (seat_posted sat) s = with_phase i (gone sat) (record s { cus = s.cus + 1 })
customer_step i (gone sat) s = s

-- After a dequeue from the sofa.
unfoldable pub take_order : Option ℕ → Chef
take_order none = idle
take_order (some c) = baking c

-- After a dequeue from the standing queue.
pub call_next : Option ℕ → Chef
call_next none = idle
call_next (some c) = moving c

-- The next step of chef `k`, which is at the given place.
unfoldable pub chef_step : ℕ → Chef → Shop → Shop
chef_step k idle s =
    let (c, q) = my_dequeue s.sofa in with_chef k (take_order c) (record s { sofa = q })
chef_step k (baking c) s =
    with_chef k (ready c)
      (record s { customers = update s.customers c (record (s.customers c) { baked = true }) })
chef_step k (ready c) s =
    if s.register then s else with_chef k (paying c) (record s { register = true })
chef_step k (paying c) s = with_chef k (accepted c) (record s { register = false })
chef_step k (accepted c) s =
    with_chef k (served c)
      (record s { customers = update s.customers c (record (s.customers c) { paid = true }) })
chef_step k (served c) s =
    let (t, q) = my_dequeue s.standing in with_chef k (call_next t) (record s { standing = q })
chef_step k (moving c) s = with_chef k idle (record s { sofa = (my_enqueue s.sofa c).1 })

pub data Thread : Type 0 where
  customer : ℕ → Thread
  chef : ℕ → Thread

unfoldable pub step : Thread → Shop → Shop
step (customer i) s = customer_step i (s.customers i).phase s
step (chef k) s = chef_step k (s.chefs k) s

-- `main` with `n` customers: the semaphores at their first values, the queues empty.
unfoldable pub init : Queue → Queue → Shop
init standing sofa = record {
  cus = bakery_capacity;
  seats = 4;
  register = false;
  standing = my_init standing;
  sofa = my_init sofa;
  customers = λ _. record { phase = outside; baked = false; paid = false };
  chefs = λ _. idle;
}

abbrev pub Runs : ℕ → Thread → Type 0
Runs n (customer i) = i < n
Runs n (chef k) = k < num_chefs

-- The states that `n` customers and the chefs can bring about, in any interleaving.
pub data Reach (n : ℕ) : Shop → Type 0 where
  start : (standing sofa : Queue) → Reach n (init standing sofa)
  later : {s : Shop} (t : Thread) → Reach n s → Runs n t → Reach n (step t s)
