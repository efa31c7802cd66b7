-- ===== src/Kernel/Procs/Cpus.antt =====
-- kernel/proc.c: what the CPUs run.
use os_network_concurrency_s.Common.{
  ℕ, ◌≡◌, ◌≢◌, Option, none, some, Bool, true, false, ◌==◌, not, arith, refl, sym, ◌∙◌, ap, update,
  if-all,
}
use os_network_concurrency_s.Kernel.Procs.{
  Machine, runnable, running, zombie, Chan, on_proc, Place, ready, new_child, parented, is, nproc,
  put, wakeup, has_child, adopted, reparent, wake_parent, kexit, freeproc, found_proc, find_unused,
  fork_found, fork_parent, fork_ready, find_zombie, sleep, wait_found, WaitEnd, failed, waits,
  yield, kill_found, schedule,
}
use os_network_concurrency_s.Kernel.Procs.Exits.{find_zombie-some}
use os_network_concurrency_s.Kernel.Procs.Forks.{find_unused-some}
use os_network_concurrency_s.Kernel.Procs.Tree.{Tree, child_of}

-- A CPU runs a process that is RUNNING, and no two run the same one.
pub record Cpus (s : Machine) : Type 0 where
  pub runs : (c i : ℕ) → s.cpus c ≡ some i → (s.procs i).state ≡ running
  pub one : (c d i : ℕ) → s.cpus c ≡ some i → s.cpus d ≡ some i → c ≡ d

-- Steps that leave the CPUs and the running processes alone.
pub Cpus-same :
    (s t : Machine)
    → t.cpus ≡ s.cpus
    → ((i : ℕ) → (s.procs i).state ≡ running → (t.procs i).state ≡ running)
    → Cpus s
    → Cpus t
Cpus-same s t e keep h = record {
  runs = λ c i r. keep i (h.runs c i (sym (ap (λ f. f c) e) ∙ r));
  one = λ c d i r q. h.one c d i (sym (ap (λ f. f c) e) ∙ r) (sym (ap (λ f. f d) e) ∙ q);
}

-- Steps at whose end CPU `c` gives up process `i`.
pub Cpus-off :
    (c i : ℕ) (s t : Machine)
    → s.cpus c ≡ some i
    → t.cpus ≡ update s.cpus c none
    → ((j : ℕ) → i ≢ j → (s.procs j).state ≡ running → (t.procs j).state ≡ running)
    → Cpus s
    → Cpus t
Cpus-off c i s t on e keep h = record {
  runs = λ d j r.
      let r' : update s.cpus c none d ≡ some j = sym (ap (λ f. f d) e) ∙ r in
      let was : s.cpus d ≡ some j = ground (arith, r') in
      keep j (λ same. ground (arith, r', same, h.one c d i on)) (h.runs d j was);
  one = λ d k j r q.
      let r' : update s.cpus c none d ≡ some j = sym (ap (λ f. f d) e) ∙ r in
      let q' : update s.cpus c none k ≡ some j = sym (ap (λ f. f k) e) ∙ q in
      h.one d k j (ground (arith, r')) (ground (arith, q'));
}

pub schedule-Cpus : (c i : ℕ) (s : Machine) → s.cpus c ≡ none → Cpus s → Cpus (schedule c i s)
unfolding schedule
schedule-Cpus c i s idle h =
    if-all Cpus (is (s.procs i).state runnable) _ s
      (λ e. record {
        runs = λ d j r. ground (arith, e, r, h.runs d j);
        one = λ d k j r q. ground (arith, e, r, q, h.one d k j, h.runs d j, h.runs k j);
      })
      (λ _. h)

wakeup-running :
    (chan : Chan) (i j : ℕ) (s : Machine)
    → (s.procs j).state ≡ running
    → ((wakeup chan i s).procs j).state ≡ running
unfolding wakeup
wakeup-running chan i j s r = ground (arith, r)

pub wakeup-Cpus : (chan : Chan) (i : ℕ) (s : Machine) → Cpus s → Cpus (wakeup chan i s)
unfolding wakeup
wakeup-Cpus chan i s h = Cpus-same s (wakeup chan i s) refl (λ j r. wakeup-running chan i j s r) h

reparent-running :
    (i j : ℕ) (s : Machine) → (s.procs j).state ≡ running → ((reparent i s).procs j).state ≡ running
unfolding reparent
reparent-running i j s r =
    let s' = record s { procs = λ k. adopted i s.initproc (s.procs k) } in
    let r' : (s'.procs j).state ≡ running = ground (arith, r) in
    if-all (λ (t : Machine). (t.procs j).state ≡ running) (has_child i nproc s.procs)
      (wakeup (on_proc s.initproc) i s') s' (λ _. wakeup-running (on_proc s.initproc) i j s' r')
      (λ _. r')

reparent-cpus : (i : ℕ) (s : Machine) → (reparent i s).cpus ≡ s.cpus
unfolding reparent wakeup
reparent-cpus i s =
    if-all (λ (t : Machine). t.cpus ≡ s.cpus) (has_child i nproc s.procs) _ _ (λ _. refl)
      (λ _. refl)

wake_parent-running :
    (o : Option ℕ) (i j : ℕ) (s : Machine)
    → (s.procs j).state ≡ running
    → ((wake_parent o i s).procs j).state ≡ running
wake_parent-running none i j s r = r
wake_parent-running (some k) i j s r = wakeup-running (on_proc k) i j s r

abbrev pub KeepsCpus : Option Machine → Type 0
KeepsCpus none = Unit
KeepsCpus (some t) = Cpus t

pub kexit-Cpus :
    (c status i : ℕ) (s : Machine) → s.cpus c ≡ some i → Cpus s → KeepsCpus (kexit c status i s)
unfolding kexit
kexit-Cpus c status i s on h =
    if-all KeepsCpus (i == s.initproc) none _ (λ _. tt)
      (λ _.
        let s' = reparent i s in
        let s'' = wake_parent (s'.procs i).parent i s' in
        let t = record (put i (record (s''.procs i) { xstate = status; state = zombie }) s'') {
          cpus = update s.cpus c none;
        } in
        Cpus-off c i s t on refl
          (λ j ne r.
            ground (
              arith,
              ne,
              wake_parent-running (s'.procs i).parent i j s' (reparent-running i j s r),
            ))
          h)

pub sleep-Cpus :
    (c i : ℕ) (chan : Chan) (s : Machine) → s.cpus c ≡ some i → Cpus s → Cpus (sleep c chan i s)
unfolding sleep
sleep-Cpus c i chan s on h =
    Cpus-off c i s (sleep c chan i s) on refl (λ j ne r. ground (arith, ne, r)) h

pub yield-Cpus : (c i : ℕ) (s : Machine) → s.cpus c ≡ some i → Cpus s → Cpus (yield c i s)
unfolding yield
yield-Cpus c i s on h = Cpus-off c i s (yield c i s) on refl (λ j ne r. ground (arith, ne, r)) h

pub kill_found-Cpus : (o : Option ℕ) (s : Machine) → Cpus s → Cpus (kill_found o s).1
unfolding kill_found
kill_found-Cpus none s h = h
kill_found-Cpus (some i) s h =
    Cpus-same s (kill_found (some i) s).1 refl (λ j r. ground (arith, r)) h

pub wait_found-Cpus :
    (c : ℕ) (copied : Bool) (i : ℕ) (o : Option ℕ) (s : Machine)
    → find_zombie nproc 0 i s.procs ≡ o
    → s.cpus c ≡ some i
    → Cpus s
    → Cpus (wait_found c copied i o s).1
unfolding wait_found freeproc
wait_found-Cpus c true i (some j) s e on h =
    let f = find_zombie-some nproc 0 i s.procs j e in
    Cpus-same s (put j (freeproc (s.procs j)) s) refl (λ k r. ground (arith, r, f.1)) h
wait_found-Cpus c false i (some j) s e on h = h
wait_found-Cpus c copied i none s e on h =
    let P = λ (x : WaitEnd × Machine). Cpus x.1 in
    if-all P (not (has_child i nproc s.procs)) (failed, s) _ (λ _. h)
      (λ _.
        if-all P (s.procs i).killed (failed, s) (waits, sleep c (on_proc i) i s) (λ _. h)
          (λ _. sleep-Cpus c i (on_proc i) s on h))

pub fork_found-Cpus :
    (enough : Bool) (i : ℕ) (o : Option ℕ) (s : Machine)
    → find_unused nproc 0 s.procs ≡ o
    → Cpus s
    → Cpus (fork_found enough i o s)
unfolding fork_found found_proc freeproc
fork_found-Cpus enough i none s e h = h
fork_found-Cpus true i (some n) s e h =
    let f = find_unused-some nproc 0 s.procs n e in
    Cpus-same s (fork_found true i (some n) s) refl (λ k r. ground (arith, r, f.1)) h
fork_found-Cpus false i (some n) s e h =
    let f = find_unused-some nproc 0 s.procs n e in
    Cpus-same s (fork_found false i (some n) s) refl (λ k r. ground (arith, r, f.1)) h

pub forked-Cpus :
    (p : Place) (i : ℕ) (s : Machine)
    → (s.procs i).place ≡ p
    → Tree s
    → Cpus s
    → Cpus (fork_parent p i s) × Cpus (fork_ready p i s)
unfolding fork_parent fork_ready
forked-Cpus ready i s e tree h = (h, h)
forked-Cpus (new_child n) i s e tree h =
    (Cpus-same s (fork_parent (new_child n) i s) refl (λ k r. ground (arith, r)) h, h)
forked-Cpus (parented n) i s e tree h =
    let made = tree.made i n (ap child_of e) in
    (h, Cpus-same s (fork_ready (parented n) i s) refl (λ k r. ground (arith, r, made)) h)
