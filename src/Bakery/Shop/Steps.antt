-- ===== src/Bakery/Shop/Steps.antt =====
-- Concurrent-Bakery-Sim/main.c: every step of a customer or a chef keeps the invariant.
use os_network_concurrency_s.Common.{
  ℕ, ◌+◌, ◌-◌, ◌≡◌, ◌≤◌, ◌<◌, Option, none, some, ltb, ◌==◌, update, true, false, ◌&&◌,
  sum_below_mono, arith, refl, Bool-cases, inl, inr,
}
use os_network_concurrency_s.Bakery.Queue.{Queue, queue_max, my_enqueue, my_dequeue, get_count}
use os_network_concurrency_s.Bakery.Queue.Fifo.{IsValid, my_enqueue-appends}
use os_network_concurrency_s.Bakery.Shop.{
  Phase, outside, refused, entered, sitting, waiting, leaving, seat_posted, gone, Customer, Chef,
  idle, baking, ready, paying, accepted, served, moving, Shop, with_phase, customer_step,
}
use os_network_concurrency_s.Bakery.Shop.Invariant.{
  total, total-update, inside, has_seat, extra_post, joined, unpaid, inside_of, has_seat_of,
  extra_post_of, unpaid_of, Joined, QueueJoined, ChefJoined, Inv,
}

-- What a step of customer `i` to phase `p` does to the counts.
record Counts (n i : ℕ) (cs : ℕ → Customer) (p : Phase) : Type 0 where
  ins :
      total inside_of n (update cs i (record (cs i) { phase = p })) + inside (cs i).phase
      ≡ total inside_of n cs + inside p
  seat :
      total has_seat_of n (update cs i (record (cs i) { phase = p })) + has_seat (cs i).phase
      ≡ total has_seat_of n cs + has_seat p
  post :
      total extra_post_of n (update cs i (record (cs i) { phase = p })) + extra_post (cs i).phase
      ≡ total extra_post_of n cs + extra_post p
  wait :
      total unpaid_of n (update cs i (record (cs i) { phase = p }))
        + unpaid (cs i).phase (cs i).paid
      ≡ total unpaid_of n cs + unpaid p (cs i).paid

counts : (n i : ℕ) (cs : ℕ → Customer) (p : Phase) → i < n → Counts n i cs p
counts n i cs p lt = record {
  ins = total-update inside_of n cs i (record (cs i) { phase = p }) lt;
  seat = total-update has_seat_of n cs i (record (cs i) { phase = p }) lt;
  post = total-update extra_post_of n cs i (record (cs i) { phase = p }) lt;
  wait = total-update unpaid_of n cs i (record (cs i) { phase = p }) lt;
}

-- A customer that has queued up stays so when some customer moves on.
module _ (n i : ℕ) (s s' : Shop) (p : Phase) where
  abbrev Forward : Type 0
  Forward =
      (s'.customers ≡ update s.customers i (record (s.customers i) { phase = p }))
      × (joined (s.customers i).phase ≡ true → joined p ≡ true)

  Joined-forward : Forward → (c : ℕ) → Joined n s c → Joined n s' c
  Joined-forward f c j = (j.0, rw f.0 (ground (arith, j.1, f.1)))

  ChefJoined-forward : Forward → (c : Chef) → ChefJoined n s c → ChefJoined n s' c
  ChefJoined-forward f idle j = tt
  ChefJoined-forward f (baking c) j = Joined-forward f c j
  ChefJoined-forward f (ready c) j = Joined-forward f c j
  ChefJoined-forward f (paying c) j = Joined-forward f c j
  ChefJoined-forward f (accepted c) j = Joined-forward f c j
  ChefJoined-forward f (served c) j = Joined-forward f c j
  ChefJoined-forward f (moving c) j = Joined-forward f c j

pub unpaid-le-inside : (n : ℕ) (cs : ℕ → Customer) → total unpaid_of n cs ≤ total inside_of n cs
unpaid-le-inside n cs =
    sum_below_mono n (λ j. unpaid_of (cs j)) (λ j. inside_of (cs j)) (λ j. ground arith)

module _ {n i : ℕ} {s : Shop} (lt : i < n) (inv : Inv n s) where
  open inv use {
    capacity, seating, queued, one_payment, standing_valid, sofa_valid, unpaid_before,
    standing_joined, sofa_joined, chefs_joined,
  }

  -- A step that changes the phase and the semaphores alone.
  moved :
      (p : Phase) (cus seats : ℕ)
      → (joined (s.customers i).phase ≡ true → joined p ≡ true)
      → (joined p ≡ false → joined (s.customers i).phase ≡ false)
      → cus + inside p ≡ s.cus + inside (s.customers i).phase
      → seats + has_seat p + extra_post (s.customers i).phase
        ≡ s.seats + has_seat (s.customers i).phase + extra_post p
      → unpaid p (s.customers i).paid ≡ unpaid (s.customers i).phase (s.customers i).paid
      → Inv n (with_phase i p (record s { cus = cus; seats = seats }))
  moved p cus seats fw bw c1 c2 c3 = record {
    capacity = omega (arith, capacity, c.ins, c1);
    seating = omega (arith, seating, c.seat, c.post, c2);
    queued = omega (arith, queued, c.wait, c3);
    one_payment = one_payment;
    standing_valid = standing_valid;
    sofa_valid = sofa_valid;
    unpaid_before = λ j h. ground (arith, unpaid_before j, unpaid_before i, bw);
    standing_joined = λ j h. Joined-forward n i s s' p (refl, fw) _ (standing_joined j h);
    sofa_joined = λ j h. Joined-forward n i s s' p (refl, fw) _ (sofa_joined j h);
    chefs_joined = λ k. ChefJoined-forward n i s s' p (refl, fw) (s.chefs k) (chefs_joined k);
  }
    where
      c : Counts n i s.customers p
      c = counts n i s.customers p lt

      s' : Shop
      s' = with_phase i p (record s { cus = cus; seats = seats })

abbrev pub Dequeued : ℕ → Shop → Queue → Queue → Option ℕ → Type 0
Dequeued n s q q' none = q'.count ≡ q.count
Dequeued n s q q' (some x) = (q'.count + 1 ≡ q.count) × Joined n s x

module _ (n : ℕ) (s : Shop) (q : Queue) (v : IsValid q) where
  pub enqueue-QueueJoined :
      (x : ℕ) → QueueJoined n s q → Joined n s x → QueueJoined n s (my_enqueue q x).1
  unfolding my_enqueue
  enqueue-QueueJoined x old new j h = elim (Bool-cases (ltb q.count queue_max)) [
    | inl room ↦ elim (Bool-cases (j == q.count)) [
      | inl last ↦ ground (arith, v.tail_at, v.head_in, new)
      | inr before ↦ ground (arith, v.tail_at, v.head_in, old j)
    ]
    | inr full ↦ ground (arith, old j)
  ]

  pub count-enqueue : (x : ℕ) → q.count < queue_max → (my_enqueue q x).1.count ≡ q.count + 1
  unfolding my_enqueue
  count-enqueue x room = ground arith

  pub dequeue-QueueJoined : QueueJoined n s q → QueueJoined n s (my_dequeue q).1
  unfolding my_dequeue
  dequeue-QueueJoined old j h = ground (arith, v.head_in, old (j + 1))

  -- The customer that a dequeue takes off, and how many are left.
  pub dequeued :
      QueueJoined n s q → (o : Option ℕ) → (my_dequeue q).0 ≡ o → Dequeued n s q (my_dequeue q).1 o
  unfolding my_dequeue
  dequeued old none e = ground arith
  dequeued old (some x) e = ground (arith, old 0)

module _ {n i : ℕ} {s : Shop} (lt : i < n) (inv : Inv n s) where
  open inv use {
    capacity, seating, queued, one_payment, standing_valid, sofa_valid, unpaid_before,
    standing_joined, sofa_joined, chefs_joined,
  }

  -- Fewer than QUEUE_MAX have queued up while `i` is inside and has not.
  pub room_left :
      inside (s.customers i).phase ≡ 1
      → joined (s.customers i).phase ≡ false
      → total unpaid_of n s.customers < queue_max
  room_left e f =
      let c = counts n i s.customers refused lt in
      ground (
        arith,
        capacity,
        c.ins,
        c.wait,
        unpaid-le-inside n (update s.customers i (record (s.customers i) { phase = refused })),
      )

  joined_self :
      (p : Phase) (s' : Shop)
      → s'.customers ≡ update s.customers i (record (s.customers i) { phase = p })
      → joined p ≡ true
      → Joined n s' i
  joined_self p s' e h = (lt, rw e (ground (arith, h)))

  -- The customer queues up standing.
  stands :
      (s.customers i).phase ≡ entered
      → Inv n (with_phase i (waiting false) (record s { standing = (my_enqueue s.standing i).1 }))
  stands e = record {
    capacity = ground (arith, capacity, c.ins, e);
    seating = ground (arith, seating, c.seat, c.post, e);
    queued = ground (
      arith,
      queued,
      c.wait,
      e,
      unpaid_before i,
      room,
      count-enqueue n s s.standing standing_valid i,
    );
    one_payment = one_payment;
    standing_valid = (my_enqueue-appends s.standing i standing_valid).0;
    sofa_valid = sofa_valid;
    unpaid_before = λ j h. ground (arith, unpaid_before j, e);
    standing_joined =
        enqueue-QueueJoined n s' s.standing standing_valid i
          (λ j h. Joined-forward n i s s' p (refl, λ _. refl) _ (standing_joined j h))
          (joined_self p s' refl refl);
    sofa_joined = λ j h. Joined-forward n i s s' p (refl, λ _. refl) _ (sofa_joined j h);
    chefs_joined =
        λ k. ChefJoined-forward n i s s' p (refl, λ _. refl) (s.chefs k) (chefs_joined k);
  }
    where
      p : Phase
      p = waiting false

      c : Counts n i s.customers p
      c = counts n i s.customers p lt

      room : total unpaid_of n s.customers < queue_max
      room = room_left (rw e) (rw e)

      s' : Shop
      s' = with_phase i p (record s { standing = (my_enqueue s.standing i).1 })

  -- The customer sits down.
  sits :
      (s.customers i).phase ≡ sitting
      → Inv n (with_phase i (waiting true) (record s { sofa = (my_enqueue s.sofa i).1 }))
  sits e = record {
    capacity = ground (arith, capacity, c.ins, e);
    seating = ground (arith, seating, c.seat, c.post, e);
    queued =
        ground
          (arith, queued, c.wait, e, unpaid_before i, room, count-enqueue n s s.sofa sofa_valid i);
    one_payment = one_payment;
    standing_valid = standing_valid;
    sofa_valid = (my_enqueue-appends s.sofa i sofa_valid).0;
    unpaid_before = λ j h. ground (arith, unpaid_before j, e);
    standing_joined = λ j h. Joined-forward n i s s' p (refl, λ _. refl) _ (standing_joined j h);
    sofa_joined =
        enqueue-QueueJoined n s' s.sofa sofa_valid i
          (λ j h. Joined-forward n i s s' p (refl, λ _. refl) _ (sofa_joined j h))
          (joined_self p s' refl refl);
    chefs_joined =
        λ k. ChefJoined-forward n i s s' p (refl, λ _. refl) (s.chefs k) (chefs_joined k);
  }
    where
      p : Phase
      p = waiting true

      c : Counts n i s.customers p
      c = counts n i s.customers p lt

      room : total unpaid_of n s.customers < queue_max
      room = room_left (rw e) (rw e)

      s' : Shop
      s' = with_phase i p (record s { sofa = (my_enqueue s.sofa i).1 })

  pub customer_step-Inv : (p : Phase) → (s.customers i).phase ≡ p → Inv n (customer_step i p s)
  unfolding customer_step get_count
  customer_step-Inv outside e = elim (Bool-cases (ltb 0 s.cus)) [
    | inl room ↦ rw room (
        moved lt inv entered (s.cus - 1) s.seats (λ h. ground (arith, h, e))
          (λ _. ground (arith, e)) (ground (arith, e, room)) (ground (arith, e))
          (ground (arith, e)))
    | inr full ↦ rw full (
        moved lt inv refused s.cus s.seats (λ h. ground (arith, h, e)) (λ _. ground (arith, e))
          (ground (arith, e)) (ground (arith, e)) (ground (arith, e)))
  ]
  customer_step-Inv refused e = inv
  customer_step-Inv entered e = elim (Bool-cases (s.standing.count == 0 && ltb 0 s.seats)) [
    | inl free ↦ rw free (
        moved lt inv sitting s.cus (s.seats - 1) (λ h. ground (arith, h, e))
          (λ _. ground (arith, e)) (ground (arith, e)) (ground (arith, e, free))
          (ground (arith, e)))
    | inr none_free ↦ rw none_free (stands e)
  ]
  customer_step-Inv sitting e = sits e
  customer_step-Inv (waiting sat) e =
      elim (Bool-cases ((s.customers i).baked && (s.customers i).paid)) [
        | inl done ↦ rw done (
            moved lt inv (leaving sat) s.cus s.seats (λ _. refl) (λ h. absurd (ground (arith, h)))
              (ground (arith, e)) (ground (arith, e)) (ground (arith, e, done)))
        | inr more ↦ rw more inv
      ]
  customer_step-Inv (leaving sat) e =
      moved lt inv (seat_posted sat) s.cus (s.seats + 1) (λ _. refl)
        (λ h. absurd (ground (arith, h))) (ground (arith, e)) (ground (arith, e))
        (ground (arith, e))
  customer_step-Inv (seat_posted sat) e =
      moved lt inv (gone sat) (s.cus + 1) s.seats (λ _. refl) (λ h. absurd (ground (arith, h)))
        (ground (arith, e)) (ground (arith, e)) (ground (arith, e))
  customer_step-Inv (gone sat) e = inv
