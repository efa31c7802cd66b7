-- ===== src/Bakery/Shop/Chefs.antt =====
-- Concurrent-Bakery-Sim/main.c: every step of a chef keeps the invariant.
use os_network_concurrency_s.Common.{
  ℕ, ◌+◌, ◌≡◌, ◌≤◌, ◌<◌, Option, none, some, ◌==◌, if◌then◌else◌, update, Bool, true, false, arith,
  refl, Bool-cases, inl, inr,
}
use os_network_concurrency_s.Bakery.Queue.{Queue, queue_max, my_enqueue, my_dequeue}
use os_network_concurrency_s.Bakery.Queue.Fifo.{IsValid, my_enqueue-appends, my_dequeue-takes}
use os_network_concurrency_s.Bakery.Shop.{
  Phase, Customer, Chef, idle, baking, ready, paying, accepted, served, moving, Shop, num_chefs,
  with_chef, chef_step, take_order, call_next,
}
use os_network_concurrency_s.Bakery.Shop.Invariant.{
  total, total-update, unpaid, inside_of, has_seat_of, extra_post_of, unpaid_of, busy, at_register,
  bit, Joined, QueueJoined, ChefJoined, Inv,
}
use os_network_concurrency_s.Bakery.Shop.Steps.{
  enqueue-QueueJoined, count-enqueue, dequeue-QueueJoined, Dequeued, dequeued, unpaid-le-inside,
}

-- What a step of chef `k` to `c` does to the counts.
record ChefCounts (k : ℕ) (chefs : ℕ → Chef) (c : Chef) : Type 0 where
  work :
      total busy num_chefs (update chefs k c) + busy (chefs k) ≡ total busy num_chefs chefs + busy c
  pays :
      total at_register num_chefs (update chefs k c) + at_register (chefs k)
      ≡ total at_register num_chefs chefs + at_register c

chef_counts : (k : ℕ) (chefs : ℕ → Chef) (c : Chef) → k < num_chefs → ChefCounts k chefs c
chef_counts k chefs c lt = record {
  work = total-update busy num_chefs chefs k c lt;
  pays = total-update at_register num_chefs chefs k c lt;
}

-- The flags of a customer do not take it out of the queues.
module _ (n : ℕ) (s s' : Shop) where
  abbrev SamePhases : Type 0
  SamePhases = (c : ℕ) → (s'.customers c).phase ≡ (s.customers c).phase

  Joined-same : SamePhases → (c : ℕ) → Joined n s c → Joined n s' c
  Joined-same f c j = (j.0, ground (arith, j.1, f c))

  ChefJoined-same : SamePhases → (c : Chef) → ChefJoined n s c → ChefJoined n s' c
  ChefJoined-same f idle j = tt
  ChefJoined-same f (baking c) j = Joined-same f c j
  ChefJoined-same f (ready c) j = Joined-same f c j
  ChefJoined-same f (paying c) j = Joined-same f c j
  ChefJoined-same f (accepted c) j = Joined-same f c j
  ChefJoined-same f (served c) j = Joined-same f c j
  ChefJoined-same f (moving c) j = Joined-same f c j

ChefJoined-update :
    (n : ℕ) (s : Shop) (chefs : ℕ → Chef) (k : ℕ) (c : Chef)
    → ((j : ℕ) → ChefJoined n s (chefs j))
    → ChefJoined n s c
    → (j : ℕ) → ChefJoined n s (update chefs k c j)
ChefJoined-update n s chefs k c old new j = elim (Bool-cases (k == j)) [
  | inl here ↦ rw here new
  | inr other ↦ rw other (old j)
]

if-Inv :
    (n : ℕ) (b : Bool) (s t : Shop)
    → (b ≡ true → Inv n s)
    → (b ≡ false → Inv n t)
    → Inv n (if b then s else t)
if-Inv n true s t h g = h refl
if-Inv n false s t h g = g refl

module _ {n k : ℕ} {s : Shop} (lt : k < num_chefs) (inv : Inv n s) where
  open inv use {
    capacity, seating, queued, one_payment, standing_valid, sofa_valid, unpaid_before,
    standing_joined, sofa_joined, chefs_joined,
  }

  -- A chef goes on to `c`; the queues and the register are given anew.
  goes_on :
      (c : Chef) (register : Bool) (standing sofa : Queue)
      → ChefJoined n s c
      → IsValid standing
      → IsValid sofa
      → QueueJoined n s standing
      → QueueJoined n s sofa
      → standing.count + sofa.count + busy c ≤ s.standing.count + s.sofa.count + busy (s.chefs k)
      → at_register c + bit s.register ≡ at_register (s.chefs k) + bit register
      → Inv n (with_chef k c (record s { register = register; standing = standing; sofa = sofa }))
  goes_on c register standing sofa cj sv fv sj fj c1 c2 = record {
    capacity = capacity;
    seating = seating;
    queued = omega (arith, queued, (chef_counts k s.chefs c lt).work, c1);
    one_payment = omega (arith, one_payment, (chef_counts k s.chefs c lt).pays, c2);
    standing_valid = sv;
    sofa_valid = fv;
    unpaid_before = unpaid_before;
    standing_joined = sj;
    sofa_joined = fj;
    chefs_joined = λ j.
        ChefJoined-same n s s' (λ _. refl) (update s.chefs k c j)
          (ChefJoined-update n s s.chefs k c chefs_joined cj j);
  }
    where
      s' : Shop
      s' = with_chef k c (record s { register = register; standing = standing; sofa = sofa })

  -- A chef sets the flags of the customer that it serves.
  marks :
      (c : Chef) (x : ℕ) (b p : Bool)
      → Joined n s x
      → ChefJoined n s c
      → busy c + unpaid (s.customers x).phase (s.customers x).paid
        ≤ busy (s.chefs k) + unpaid (s.customers x).phase p
      → at_register c ≡ at_register (s.chefs k)
      → Inv n (
          with_chef k c (record s {
            customers = update s.customers x (record (s.customers x) { baked = b; paid = p });
          }))
  marks c x b p j cj c0 c1 = record {
    capacity = omega (arith, capacity, total-update inside_of n s.customers x marked j.0);
    seating = omega (
      arith,
      seating,
      total-update has_seat_of n s.customers x marked j.0,
      total-update extra_post_of n s.customers x marked j.0,
    );
    queued = omega (
      arith,
      queued,
      (chef_counts k s.chefs c lt).work,
      total-update unpaid_of n s.customers x marked j.0,
      c0,
    );
    one_payment = omega (arith, one_payment, (chef_counts k s.chefs c lt).pays, c1);
    standing_valid = standing_valid;
    sofa_valid = sofa_valid;
    unpaid_before = λ y h. ground (arith, unpaid_before y, j.1);
    standing_joined = λ y h. Joined-same n s s' same _ (standing_joined y h);
    sofa_joined = λ y h. Joined-same n s s' same _ (sofa_joined y h);
    chefs_joined = λ y.
        ChefJoined-same n s s' same (update s.chefs k c y)
          (ChefJoined-update n s s.chefs k c chefs_joined cj y);
  }
    where
      marked : Customer
      marked = record (s.customers x) { baked = b; paid = p }

      s' : Shop
      s' = with_chef k c (record s { customers = update s.customers x marked })

      same : (y : ℕ) → (s'.customers y).phase ≡ (s.customers y).phase
      same y = ground arith

  unpaid-le : (p : Phase) (b : Bool) → unpaid p b ≤ 1
  unpaid-le p b = ground arith

  -- What the chef holds is a customer that has queued up.
  held : (c : Chef) → s.chefs k ≡ c → ChefJoined n s c
  held c e = rw e at (chefs_joined k)

  take_order-Joined :
      (o : Option ℕ) (q q' : Queue)
      → Dequeued n s q q' o
      → ChefJoined n s (take_order o)
        × (q'.count + busy (take_order o) ≡ q.count)
        × (at_register (take_order o) ≡ 0)
  unfolding take_order
  take_order-Joined none q q' d = (tt, omega arith, refl)
  take_order-Joined (some x) q q' d = (d.1, omega arith, refl)

  call_next-Joined :
      (o : Option ℕ) (q q' : Queue)
      → Dequeued n s q q' o
      → ChefJoined n s (call_next o)
        × (q'.count + busy (call_next o) ≡ q.count)
        × (at_register (call_next o) ≡ 0)
  unfolding call_next
  call_next-Joined none q q' d = (tt, omega arith, refl)
  call_next-Joined (some x) q q' d = (d.1, omega arith, refl)

  -- While the chef moves a customer the sofa queue has room.
  pub sofa_room : busy (s.chefs k) ≡ 1 → s.sofa.count < queue_max
  sofa_room e = omega (
    arith,
    queued,
    e,
    capacity,
    unpaid-le-inside n s.customers,
    (chef_counts k s.chefs idle lt).work,
  )

  pub chef_step-Inv : (c : Chef) → s.chefs k ≡ c → Inv n (chef_step k c s)
  unfolding chef_step
  chef_step-Inv idle e =
      let (cj, cnt, at) =
        take_order-Joined (my_dequeue s.sofa).0 s.sofa (my_dequeue s.sofa).1
          (dequeued n s s.sofa sofa_valid sofa_joined (my_dequeue s.sofa).0 refl) in
      goes_on (take_order (my_dequeue s.sofa).0) s.register s.standing (my_dequeue s.sofa).1 cj
        standing_valid (my_dequeue-takes s.sofa sofa_valid).0 standing_joined
        (dequeue-QueueJoined n s s.sofa sofa_valid sofa_joined) (ground (arith, cnt, e))
        (ground (arith, at, e))
  chef_step-Inv (baking x) e =
      marks (ready x) x true (s.customers x).paid (held (baking x) e) (held (baking x) e)
        (ground (arith, e)) (ground (arith, e))
  chef_step-Inv (ready x) e =
      if-Inv n s.register s (with_chef k (paying x) (record s { register = true })) (λ _. inv)
        (λ free.
          goes_on (paying x) true s.standing s.sofa (held (ready x) e) standing_valid sofa_valid
            standing_joined sofa_joined (ground (arith, e)) (ground (arith, e, free)))
  chef_step-Inv (paying x) e =
      goes_on (accepted x) false s.standing s.sofa (held (paying x) e) standing_valid sofa_valid
        standing_joined sofa_joined (ground (arith, e))
        (ground (arith, e, one_payment, (chef_counts k s.chefs idle lt).pays))
  chef_step-Inv (accepted x) e =
      marks (served x) x (s.customers x).baked true (held (accepted x) e) (held (accepted x) e)
        (ground (arith, e, unpaid-le (s.customers x).phase (s.customers x).paid))
        (ground (arith, e))
  chef_step-Inv (served x) e =
      let (cj, cnt, at) =
        call_next-Joined (my_dequeue s.standing).0 s.standing (my_dequeue s.standing).1
          (dequeued n s s.standing standing_valid standing_joined (my_dequeue s.standing).0 refl) in
      goes_on (call_next (my_dequeue s.standing).0) s.register (my_dequeue s.standing).1 s.sofa cj
        (my_dequeue-takes s.standing standing_valid).0 sofa_valid
        (dequeue-QueueJoined n s s.standing standing_valid standing_joined) sofa_joined
        (ground (arith, cnt, e)) (ground (arith, at, e))
  chef_step-Inv (moving x) e =
      goes_on idle s.register s.standing (my_enqueue s.sofa x).1 tt standing_valid
        (my_enqueue-appends s.sofa x sofa_valid).0 standing_joined
        (enqueue-QueueJoined n s s.sofa sofa_valid x sofa_joined (held (moving x) e))
        (ground (arith, e, count-enqueue n s s.sofa sofa_valid x, sofa_room (rw e)))
        (ground (arith, e))
