-- ===== src/Kernel/Procs/Forks.antt =====
-- kernel/proc.c: kfork keeps the tree of processes.
use os_network_concurrency_s.Common.{
  ℕ, zero, suc, ◌+◌, ◌≡◌, ◌≢◌, ◌<◌, Option, none, some, Bool, true, false, arith, refl, ap,
}
use os_network_concurrency_s.Kernel.Procs.{
  Machine, Process, unused, running, Place, ready, new_child, parented, nproc, at_rest, put,
  find_unused, freeproc, found_proc, fork_found, fork_alloc, fork_parent, fork_ready,
}
use os_network_concurrency_s.Kernel.Procs.Tree.{kind, child_of, Tree}

pub find_unused-some :
    (n i : ℕ) (procs : ℕ → Process) (k : ℕ)
    → find_unused n i procs ≡ some k
    → (k < i + n) × ((procs k).state ≡ unused)
unfolding find_unused
find_unused-some zero i procs k e = absurd (ground (arith, e))
find_unused-some (suc n) i procs k e = ground (arith, e, find_unused-some n (i + 1) procs k)

module _ (i n : ℕ) (s : Machine) (h : Tree s) where
  -- A process that is not there has no part in the tree.
  no_part :
      (s.procs n).state ≡ unused
      → ((j : ℕ) → (s.procs j).parent ≢ some n) × ((j : ℕ) → child_of (s.procs j).place ≢ some n)
  no_part u = (
    λ j p. absurd (ground (arith, u, h.parents n j p)),
    λ j c. absurd (ground (arith, u, h.made j n c)),
  )

  allocated-Tree :
      (nextpid pid : ℕ)
      → n < nproc
      → (s.procs n).state ≡ unused
      → (s.procs i).state ≡ running
      → (s.procs i).place ≡ ready
      → Tree (
          put i
            (record (s.procs i) { place = new_child n })
            (put n (found_proc pid (s.procs n)) (record s { nextpid = nextpid })))
  unfolding found_proc
  allocated-Tree nextpid pid lt u r rest =
      let apart : i ≢ n = λ e. ground (arith, e, u, r) in
      let no_child = (no_part u).0 in
      let no_fork = (no_part u).1 in
      let orphan = h.absent_parent n (ap kind u) in
      record {
        low = λ j a. ground (arith, apart, a, lt, h.low j, r, u);
        absent_parent = λ j a. ground (arith, apart, a, h.absent_parent j, r, u);
        parents = λ j k p. ground (arith, apart, p, h.parents j k, r, u, no_child k);
        waiting = λ j k p z a b. ground (arith, apart, p, z, a, b, h.waiting j k, r, u, no_child k);
        init = ground (arith, apart, r, u, h.init);
        cared = λ j o a b. ground (arith, apart, o, a, b, r, u, h.cared j);
        made = λ j k c. ground (arith, apart, c, r, u, h.made j k);
        given = λ j k p. ground (arith, apart, p, r, u, h.given j k, no_fork j, ap child_of p);
        forking = λ j b. ground (arith, apart, b, r, u, h.forking j, ap kind r);
        one_fork =
            λ j k m a b. ground (arith, apart, a, b, r, u, h.one_fork j k m, no_fork j, no_fork k);
      }

  -- Without memory the place is free again.
  unallocated-Tree :
      (nextpid pid : ℕ)
      → (s.procs n).state ≡ unused
      → Tree (put n (freeproc (found_proc pid (s.procs n))) (record s { nextpid = nextpid }))
  unfolding found_proc freeproc
  unallocated-Tree nextpid pid u =
      let no_child = (no_part u).0 in
      let no_fork = (no_part u).1 in
      record {
        low = λ j a. ground (arith, a, h.low j, u);
        absent_parent = λ j a. ground (arith, a, h.absent_parent j, u);
        parents = λ j k p. ground (arith, p, h.parents j k, u, no_child k);
        waiting = λ j k p z a b. ground (arith, p, z, a, b, h.waiting j k, u, no_child k);
        init = ground (arith, u, h.init);
        cared = λ j o a b. ground (arith, o, a, b, u, h.cared j);
        made = λ j k c. ground (arith, c, u, h.made j k, no_fork j);
        given = λ j k p. ground (arith, p, u, h.given j k, no_fork j, ap child_of p);
        forking = λ j b. ground (arith, b, u, h.forking j);
        one_fork = λ j k m a b. ground (arith, a, b, u, h.one_fork j k m, no_fork j, no_fork k);
      }

  fork_parent-Tree :
      (s.procs i).state ≡ running
      → (s.procs i).place ≡ new_child n
      → Tree (fork_parent (new_child n) i s)
  unfolding fork_parent
  fork_parent-Tree r at =
      let e = h.made i n (ap child_of at) in
      let apart : i ≢ n = λ same. ground (arith, same, e, r) in
      record {
        low = λ j a. ground (arith, apart, a, h.low j, r, at, e);
        absent_parent = λ j a. ground (arith, apart, a, h.absent_parent j, r, at, e);
        parents = λ j k p. ground (arith, apart, p, h.parents j k, r, at, e);
        waiting = λ j k p z a b. ground (arith, apart, p, z, a, b, h.waiting j k, r, at, e);
        init = ground (arith, apart, r, at, e, h.init);
        cared = λ j o a b. ground (arith, apart, o, a, b, r, at, e, h.cared j);
        made = λ j k c. ground (arith, apart, c, r, at, e, h.made j k);
        given = λ j k p. ground (arith, apart, p, r, at, e, h.given j k);
        forking = λ j b. ground (arith, apart, b, r, at, e, h.forking j, ap at_rest at);
        one_fork =
            λ j k m a b. ground (arith, apart, a, b, r, at, e, h.one_fork j k m, ap child_of at);
      }

  fork_ready-Tree :
      (s.procs i).state ≡ running
      → (s.procs i).place ≡ parented n
      → Tree (fork_ready (parented n) i s)
  unfolding fork_ready
  fork_ready-Tree r at =
      let e = h.made i n (ap child_of at) in
      let g = h.given i n at in
      let apart : i ≢ n = λ same. ground (arith, same, e, r) in
      let one : (j : ℕ) → child_of (s.procs j).place ≡ some n → j ≡ i =
        λ j c. h.one_fork j i n c (ap child_of at) in
      record {
        low = λ j a. ground (arith, apart, a, h.low j, r, at, e);
        absent_parent = λ j a. ground (arith, apart, a, h.absent_parent j, r, at, e);
        parents = λ j k p. ground (arith, apart, p, h.parents j k, r, at, e);
        waiting = λ j k p z a b. ground (arith, apart, p, z, a, b, h.waiting j k, r, at, e);
        init = ground (arith, apart, r, at, e, h.init);
        cared = λ j o a b. ground (arith, apart, o, a, b, r, at, e, g, h.cared j);
        made = λ j k c. ground (arith, apart, c, r, at, e, h.made j k, one j);
        given = λ j k p. ground (arith, apart, p, r, at, e, h.given j k, one j, ap child_of p);
        forking = λ j b. ground (arith, apart, b, r, at, e, h.forking j, ap at_rest at);
        one_fork =
            λ j k m a b. ground (arith, apart, a, b, r, at, e, h.one_fork j k m, ap child_of at);
      }

fork_found-Tree :
    (enough : Bool) (i : ℕ) (o : Option ℕ) (s : Machine)
    → find_unused nproc 0 s.procs ≡ o
    → (s.procs i).state ≡ running
    → (s.procs i).place ≡ ready
    → Tree s
    → Tree (fork_found enough i o s)
unfolding fork_found
fork_found-Tree enough i none s e r rest h = h
fork_found-Tree true i (some n) s e r rest h =
    let f = find_unused-some nproc 0 s.procs n e in
    allocated-Tree i n s h (s.nextpid + 1) s.nextpid (omega (arith, f.0)) f.1 r rest
fork_found-Tree false i (some n) s e r rest h =
    unallocated-Tree i n s h (s.nextpid + 1) s.nextpid (find_unused-some nproc 0 s.procs n e).1

pub fork_alloc-Tree :
    (enough : Bool) (i : ℕ) (s : Machine)
    → (s.procs i).state ≡ running
    → (s.procs i).place ≡ ready
    → Tree s
    → Tree (fork_alloc enough i s)
unfolding fork_alloc
fork_alloc-Tree enough i s r rest h =
    fork_found-Tree enough i (find_unused nproc 0 s.procs) s refl r rest h

-- The two later parts of `kfork`, at any place.
pub forked-Tree :
    (p : Place) (i : ℕ) (s : Machine)
    → (s.procs i).place ≡ p
    → (s.procs i).state ≡ running
    → Tree s
    → Tree (fork_parent p i s) × Tree (fork_ready p i s)
unfolding fork_parent fork_ready
forked-Tree ready i s e r h = (h, h)
forked-Tree (new_child n) i s e r h = (fork_parent-Tree i n s h r e, h)
forked-Tree (parented n) i s e r h = (h, fork_ready-Tree i n s h r e)
