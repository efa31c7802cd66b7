-- ===== src/Bakery/Tests.antt =====
-- Concurrent-Bakery-Sim/main.c at concrete queues and schedules.
use os_network_concurrency_s.Common.{
  ℕ, ◌+◌, ◌%◌, ◌≡◌, ◌≤◌, ◌<◌, none, some, true, false, List, [], ◌∷◌, ◌++◌, arith, refl,
}
use os_network_concurrency_s.Bakery.Queue.{
  Queue, queue_max, my_init, my_enqueue, my_dequeue, get_count,
}
use os_network_concurrency_s.Bakery.Queue.Fifo.{
  IsValid, contents, my_enqueue-appends, my_dequeue-takes,
}
use os_network_concurrency_s.Bakery.Shop.{
  paying, moving, entered, sitting, Shop, bakery_capacity, sofa_seats, num_chefs, customer, chef,
  step, customer_step, chef_step, take_order, init, Reach, start, later,
}
use os_network_concurrency_s.Bakery.Shop.Invariant.{total, inside_of, has_seat_of, extra_post_of}
use os_network_concurrency_s.Bakery.Shop.Safety.{
  Reach-capacity, Reach-enqueues, Reach-one_payment, Reach-seats,
}

abbrev empty_queue : Queue
empty_queue = record { slots = λ _. 0; head = 0; tail = 0; count = 0 }

-- Customers 7 and 8, round the end of the array.
abbrev wrapped : Queue
wrapped = record { slots = λ i. i % 24 + 7; head = 24; tail = 1; count = 2 }

wrapped-IsValid : IsValid wrapped
wrapped-IsValid = omega arith

my_enqueue-appends_example :
    IsValid (my_enqueue wrapped 9).1
    × (wrapped.count < queue_max
        → ((my_enqueue wrapped 9).0 ≡ true)
          × (contents (my_enqueue wrapped 9).1 ≡ contents wrapped ++ (9 ∷ [])))
    × (queue_max ≤ wrapped.count → my_enqueue wrapped 9 ≡ (false, wrapped))
my_enqueue-appends_example = my_enqueue-appends wrapped 9 wrapped-IsValid

my_dequeue-takes_example :
    IsValid (my_dequeue wrapped).1
    × ((contents wrapped ≡ []) → my_dequeue wrapped ≡ (none, wrapped))
    × ((x : ℕ) (rest : List ℕ)
        → contents wrapped ≡ x ∷ rest
        → ((my_dequeue wrapped).0 ≡ some x) × (contents (my_dequeue wrapped).1 ≡ rest))
my_dequeue-takes_example = my_dequeue-takes wrapped wrapped-IsValid

wrapped_round_trip : (my_dequeue (my_enqueue wrapped 9).1).0 ≡ some 7
unfolding my_enqueue my_dequeue
wrapped_round_trip = refl

-- One customer enters, sits down, is served by chef 2, and pays.
abbrev at_payment : Shop
at_payment = step (chef 2) (
    step (chef 2) (
      step (chef 2)
        (step (customer 0) (step (customer 0) (step (customer 0) (init empty_queue empty_queue))))))

at_payment-Reach : Reach 1 at_payment
at_payment-Reach =
    later (chef 2)
      (later (chef 2)
        (later (chef 2)
          (later (customer 0)
            (later (customer 0) (later (customer 0) (start empty_queue empty_queue) (omega arith))
              (omega arith))
            (omega arith))
          (omega arith))
        (omega arith))
      (omega arith)

Reach-capacity_example :
    (total inside_of 1 at_payment.customers ≤ bakery_capacity)
    × (at_payment.cus + total inside_of 1 at_payment.customers ≡ bakery_capacity)
Reach-capacity_example = Reach-capacity at_payment-Reach

Reach-enqueues_example :
    ((i : ℕ)
      → i < 1
      → (at_payment.customers i).phase ≡ entered
      → (my_enqueue at_payment.standing i).0 ≡ true)
    × ((i : ℕ)
        → i < 1
        → (at_payment.customers i).phase ≡ sitting
        → (my_enqueue at_payment.sofa i).0 ≡ true)
    × ((k c : ℕ)
        → k < num_chefs
        → at_payment.chefs k ≡ moving c
        → (my_enqueue at_payment.sofa c).0 ≡ true)
Reach-enqueues_example = Reach-enqueues at_payment-Reach

pays : at_payment.chefs 2 ≡ paying 0
unfolding step customer_step chef_step take_order init my_init my_enqueue my_dequeue get_count
pays = refl

Reach-one_payment_example : ◌≡◌ {A = ℕ} 2 2
Reach-one_payment_example =
    Reach-one_payment at_payment-Reach 2 2 0 0 (omega arith) (omega arith) pays pays

Reach-seats_example :
    at_payment.seats + total has_seat_of 1 at_payment.customers
    ≡ sofa_seats + total extra_post_of 1 at_payment.customers
Reach-seats_example = Reach-seats at_payment-Reach
