-- ===== src/Kernel/Procs/Safety.antt =====
-- kernel/proc.c: what holds in every state that the CPUs can reach.
use os_network_concurrency_s.Common.{
  ℕ, ◌≡◌, ◌≢◌, ◌<◌, ◌⊎◌, inl, inr, Option, none, some, Bool, true, false, not, arith, refl, ap,
  if-all, ℕ_discrete,
}
use os_network_concurrency_s.Kernel.Procs.{
  Machine, sleeping, running, zombie, on_proc, on_other, Place, ready, new_child, parented, at_rest,
  nproc, find_unused, find_zombie, find_pid, fork_alloc, kwait, kkill, wait_found, WaitEnd, reaped,
  failed, waits, put, freeproc, sleep, has_child,
}
use os_network_concurrency_s.Kernel.Procs.Steps.{
  Action, forks, forks_parent, forks_ready, exits, waits_for, sleeps, yields, wakes, kills,
  schedules, or_stay, act, act_in_fork, act_on, step, Reach, start, later,
}
use os_network_concurrency_s.Kernel.Procs.Tree.{absent, exited, alive, kind, Tree}
use os_network_concurrency_s.Kernel.Procs.Calm.{
  wakeup-Tree, sleep-Tree, yield-Tree, schedule-Tree, kkill-Tree,
}
use os_network_concurrency_s.Kernel.Procs.Forks.{fork_alloc-Tree, forked-Tree}
use os_network_concurrency_s.Kernel.Procs.Exits.{
  KeepsTree, kexit-Tree, kwait-Tree, find_zombie-some, find_zombie-none, has_child-false,
}
use os_network_concurrency_s.Kernel.Procs.Cpus.{
  Cpus, schedule-Cpus, wakeup-Cpus, KeepsCpus, kexit-Cpus, sleep-Cpus, yield-Cpus, kill_found-Cpus,
  wait_found-Cpus, fork_found-Cpus, forked-Cpus,
}

record Inv (s : Machine) : Type 0 where
  tree : Tree s
  cpus : Cpus s

both : (s : Machine) → Tree s → Cpus s → Inv s
both s t c = record { tree = t; cpus = c }

or_stay-Inv :
    (s : Machine) (o : Option Machine) → Inv s → KeepsTree o → KeepsCpus o → Inv (or_stay s o)
or_stay-Inv s none h t c = h
or_stay-Inv s (some u) h t c = both u t c

at_rest-ready : (p : Place) → at_rest p ≡ true → p ≡ ready
at_rest-ready ready e = refl
at_rest-ready (new_child n) e = absurd (ground (arith, e))
at_rest-ready (parented n) e = absurd (ground (arith, e))

act-Inv :
    (c : ℕ) (a : Action) (i : ℕ) (s : Machine)
    → Inv s
    → s.cpus c ≡ some i
    → (s.procs i).place ≡ ready
    → Inv (act c a i s)
unfolding act fork_alloc kwait kkill
act-Inv c (forks enough) i s h on rest =
    both _ (fork_alloc-Tree enough i s (h.cpus.runs c i on) rest h.tree)
      (fork_found-Cpus enough i (find_unused nproc 0 s.procs) s refl h.cpus)
act-Inv c forks_parent i s h on rest = h
act-Inv c forks_ready i s h on rest = h
act-Inv c (exits status) i s h on rest =
    or_stay-Inv s _ h (kexit-Tree c status i s (h.cpus.runs c i on) rest h.tree)
      (kexit-Cpus c status i s on h.cpus)
act-Inv c (waits_for copied) i s h on rest =
    both _ (kwait-Tree c copied i s h.tree (h.cpus.runs c i on) rest)
      (wait_found-Cpus c copied i (find_zombie nproc 0 i s.procs) s refl on h.cpus)
act-Inv c (sleeps address) i s h on rest =
    both _ (sleep-Tree c address i s (h.cpus.runs c i on) (ap at_rest rest) h.tree)
      (sleep-Cpus c i (on_other address) s on h.cpus)
act-Inv c yields i s h on rest =
    both _ (yield-Tree c i s (h.cpus.runs c i on) h.tree) (yield-Cpus c i s on h.cpus)
act-Inv c (wakes address) i s h on rest =
    both _ (wakeup-Tree (on_other address) i s h.tree) (wakeup-Cpus (on_other address) i s h.cpus)
act-Inv c (kills pid) i s h on rest =
    both _ (kkill-Tree pid s h.tree) (kill_found-Cpus (find_pid nproc 0 pid s.procs) s h.cpus)
act-Inv c (schedules j) i s h on rest = h

act_in_fork-Inv :
    (c : ℕ) (a : Action) (i : ℕ) (s : Machine)
    → Inv s
    → s.cpus c ≡ some i
    → Inv (act_in_fork c a i s)
unfolding act_in_fork
act_in_fork-Inv c forks_parent i s h on =
    both _ (forked-Tree (s.procs i).place i s refl (h.cpus.runs c i on) h.tree).0
      (forked-Cpus (s.procs i).place i s refl h.tree h.cpus).0
act_in_fork-Inv c forks_ready i s h on =
    both _ (forked-Tree (s.procs i).place i s refl (h.cpus.runs c i on) h.tree).1
      (forked-Cpus (s.procs i).place i s refl h.tree h.cpus).1
act_in_fork-Inv c yields i s h on =
    both _ (yield-Tree c i s (h.cpus.runs c i on) h.tree) (yield-Cpus c i s on h.cpus)
act_in_fork-Inv c (forks enough) i s h on = h
act_in_fork-Inv c (exits status) i s h on = h
act_in_fork-Inv c (waits_for copied) i s h on = h
act_in_fork-Inv c (sleeps address) i s h on = h
act_in_fork-Inv c (wakes address) i s h on = h
act_in_fork-Inv c (kills pid) i s h on = h
act_in_fork-Inv c (schedules j) i s h on = h

act_on-Inv :
    (c : ℕ) (a : Action) (o : Option ℕ) (s : Machine) → Inv s → s.cpus c ≡ o → Inv (act_on c a o s)
unfolding act_on
act_on-Inv c (schedules i) none s h off =
    both _ (schedule-Tree c i s h.tree) (schedule-Cpus c i s off h.cpus)
act_on-Inv c (forks enough) none s h off = h
act_on-Inv c forks_parent none s h off = h
act_on-Inv c forks_ready none s h off = h
act_on-Inv c (exits status) none s h off = h
act_on-Inv c (waits_for copied) none s h off = h
act_on-Inv c (sleeps address) none s h off = h
act_on-Inv c yields none s h off = h
act_on-Inv c (wakes address) none s h off = h
act_on-Inv c (kills pid) none s h off = h
act_on-Inv c a (some i) s h on =
    if-all Inv (at_rest (s.procs i).place) (act c a i s) (act_in_fork c a i s)
      (λ e. act-Inv c a i s h on (at_rest-ready (s.procs i).place e))
      (λ _. act_in_fork-Inv c a i s h on)

Reach-Inv : {s : Machine} → Reach s → Inv s
unfolding step
Reach-Inv (start s lt live pid next own others idle) =
    let only : (i : ℕ) → kind (s.procs i).state ≢ absent → i ≡ s.initproc = λ i k.
      elim (ℕ_discrete i s.initproc) [ yes e ↦ e | no ne ↦ absurd (k (ap kind (others i ne).0)) ] in
    both s
      (record {
        low = λ i k. ground (arith, only i k, lt);
        absent_parent = λ i _. (own i).1;
        parents = λ i j p. absurd (ground (arith, p, own j));
        waiting = λ i j p z a b. absurd (ground (arith, p, own j));
        init = ap kind live;
        cared = λ j ne k m. absurd (ne (only j k));
        made = λ i n c. absurd (ground (arith, c, own i));
        given = λ i n p. absurd (ground (arith, p, own i));
        forking = λ i b. absurd (ground (arith, b, own i));
        one_fork = λ i k n a b. absurd (ground (arith, a, own i));
      })
      (record {
        runs = λ c i e. absurd (ground (arith, e, idle c));
        one = λ c d i e f. absurd (ground (arith, e, idle c));
      })
Reach-Inv (later {s} c a r) = act_on-Inv c a (s.cpus c) s (Reach-Inv r) refl

-- In every reachable state, a process that has children is alive, so one that exits leaves none behind;
-- every process but init that is alive or a zombie has a parent, which can reap it; and no process
-- sleeps in `kwait` while one of its children is a zombie, so no wakeup of a waiting parent is lost.
pub Reach-family :
    {s : Machine}
    → Reach s
    → ((i j : ℕ) → (s.procs j).parent ≡ some i → kind (s.procs i).state ≡ alive)
      × (((j : ℕ)
            → j ≢ s.initproc
            → (kind (s.procs j).state ≡ alive) ⊎ (kind (s.procs j).state ≡ exited)
            → (s.procs j).parent ≢ none)
          × ((i j : ℕ)
              → (s.procs j).parent ≡ some i
              → (s.procs j).state ≡ zombie
              → ¬ (((s.procs i).state ≡ sleeping) × ((s.procs i).chan ≡ on_proc i))))
Reach-family {s} r =
    let t = (Reach-Inv r).tree in
    (
      t.parents,
      (
        λ j ne k. ground (arith, ne, k, t.cared j),
        λ i j p z w. t.waiting i j p (ap kind z) w.0 w.1,
      ),
    )

-- In every reachable state a CPU runs a process that is RUNNING, and no two CPUs run the same one.
pub Reach-cpus :
    {s : Machine}
    → Reach s
    → ((c i : ℕ) → s.cpus c ≡ some i → (s.procs i).state ≡ running)
      × ((c d i : ℕ) → s.cpus c ≡ some i → s.cpus d ≡ some i → c ≡ d)
Reach-cpus r = let h = (Reach-Inv r).cpus in (h.runs, h.one)

-- What a stretch of `kwait` comes to.
abbrev pub WaitEnds : ℕ → Bool → ℕ → Machine → WaitEnd × Machine → Type 0
WaitEnds c copied i s (reaped pid, t) =
    (j : ℕ) × (((s.procs j).parent ≡ some i)
      × (((s.procs j).state ≡ zombie)
          × ((pid ≡ (s.procs j).pid) × (t ≡ put j (freeproc (s.procs j)) s))))
WaitEnds c copied i s (failed, t) =
    (t ≡ s)
    × ((copied ≡ false) ⊎ (((j : ℕ) → (s.procs j).parent ≢ some i) ⊎ ((s.procs i).killed ≡ true)))
WaitEnds c copied i s (waits, t) =
    ((j : ℕ) → (s.procs j).parent ≡ some i → (s.procs j).state ≢ zombie)
    × (((s.procs i).killed ≡ false) × (t ≡ sleep c (on_proc i) i s))

wait_found-WaitEnds :
    (c : ℕ) (copied : Bool) (i : ℕ) (o : Option ℕ) (s : Machine)
    → find_zombie nproc 0 i s.procs ≡ o
    → Tree s
    → WaitEnds c copied i s (wait_found c copied i o s)
unfolding wait_found
wait_found-WaitEnds c true i (some j) s e h =
    let f = find_zombie-some nproc 0 i s.procs j e in (j, (f.0, (f.1, (refl, refl))))
wait_found-WaitEnds c false i (some j) s e h = (refl, inl refl)
wait_found-WaitEnds c copied i none s e h =
    let low : (j : ℕ) → (s.procs j).parent ≡ some i → j < nproc =
      λ j p. h.low j (λ a. absurd (ground (arith, p, h.absent_parent j a))) in
    let P = WaitEnds c copied i s in
    if-all P (not (has_child i nproc s.procs)) (failed, s) _
      (λ no_kids. (
        refl,
        inr (inl (λ j p. has_child-false i nproc s.procs (ground (arith, no_kids)) j (low j p) p)),
      ))
      (λ _.
        if-all P (s.procs i).killed (failed, s) (waits, sleep c (on_proc i) i s)
          (λ k. (refl, inr (inr k)))
          (λ k. (
            λ j p z. find_zombie-none nproc 0 i s.procs e j (omega arith) (low j p) p z,
            (k, refl),
          )))

-- In a reachable state `kwait` of process `i` reaps a child that is a zombie and returns its pid;
-- or returns -1 and changes nothing, if the status cannot be copied out, there is no child or the
-- process was killed; or sleeps, if it was not killed and none of its children is a zombie.
pub kwait-WaitEnds :
    {s : Machine} (c : ℕ) (copied : Bool) (i : ℕ)
    → Reach s
    → WaitEnds c copied i s (kwait c copied i s)
unfolding kwait
kwait-WaitEnds {s} c copied i r =
    wait_found-WaitEnds c copied i (find_zombie nproc 0 i s.procs) s refl (Reach-Inv r).tree
