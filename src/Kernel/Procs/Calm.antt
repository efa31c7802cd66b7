-- ===== src/Kernel/Procs/Calm.antt =====
-- kernel/proc.c: sleep, wakeup, yield, kill and the scheduler keep the tree of processes.
use os_network_concurrency_s.Common.{
  ℕ, ◌≡◌, Option, none, some, true, if◌then◌else◌, ◌==◌, arith, refl, sym, ap, update, if-all,
}
use os_network_concurrency_s.Kernel.Procs.{
  Machine, Process, sleeping, runnable, running, Chan, no_chan, on_other, nproc, is, at_rest, put,
  woken, wakeup, sleep, yield, kill_found, kkill, find_pid, schedule,
}
use os_network_concurrency_s.Kernel.Procs.Tree.{
  kind, Tree, Calm, Tree-Calm, same-Calm, woken-Calm, put-Calm,
}

pub wakeup-Tree : (chan : Chan) (i : ℕ) (s : Machine) → Tree s → Tree (wakeup chan i s)
unfolding wakeup
wakeup-Tree chan i s h =
    Tree-Calm s (wakeup chan i s) refl
      (λ j.
        if-all (Calm (s.procs j)) (i == j) (s.procs j) (woken chan (s.procs j))
          (λ _. same-Calm (s.procs j)) (λ _. woken-Calm chan (s.procs j)))
      h

-- A change of one process, and of what the CPUs run.
put-Tree :
    (i : ℕ) (q : Process) (cpus : ℕ → Option ℕ) (s : Machine)
    → Calm (s.procs i) q
    → Tree s
    → Tree (record (put i q s) { cpus = cpus })
put-Tree i q cpus s c h = Tree-Calm s (record (put i q s) { cpus = cpus }) refl (put-Calm i q s c) h

pub sleep-Tree :
    (c address i : ℕ) (s : Machine)
    → (s.procs i).state ≡ running
    → at_rest (s.procs i).place ≡ true
    → Tree s
    → Tree (sleep c (on_other address) i s)
unfolding sleep
sleep-Tree c address i s r rest h =
    put-Tree i (record (s.procs i) { chan = on_other address; state = sleeping })
      (update s.cpus c none) s
      (record {
        same_parent = refl;
        same_place = refl;
        same_kind = sym (ap kind r);
        waits = λ k a b. absurd (ground (arith, b));
        busy = λ e _. absurd (ground (arith, e, rest));
      })
      h

pub yield-Tree : (c i : ℕ) (s : Machine) → (s.procs i).state ≡ running → Tree s → Tree (yield c i s)
unfolding yield
yield-Tree c i s r h =
    put-Tree i (record (s.procs i) { state = runnable }) (update s.cpus c none) s
      (record {
        same_parent = refl;
        same_place = refl;
        same_kind = sym (ap kind r);
        waits = λ k a b. absurd (ground (arith, a));
        busy = λ _ _ a. absurd (ground (arith, a));
      })
      h

pub schedule-Tree : (c i : ℕ) (s : Machine) → Tree s → Tree (schedule c i s)
unfolding schedule
schedule-Tree c i s h =
    let q = record (s.procs i) { state = running; chan = no_chan } in
    if-all Tree (is (s.procs i).state runnable)
      (record (put i q s) { cpus = update s.cpus c (some i) }) s
      (λ r.
        put-Tree i q (update s.cpus c (some i)) s
          (record {
            same_parent = refl;
            same_place = refl;
            same_kind = ground (arith, r);
            waits = λ k a b. absurd (ground (arith, a));
            busy = λ _ _ a. absurd (ground (arith, a));
          })
          h)
      (λ _. h)

killed-Calm :
    (p : Process)
    → Calm p (
        let q = record p { killed = true } in
        if is q.state sleeping then record q { state = runnable } else q)
killed-Calm p =
    let q = record p { killed = true } in
    if-all (Calm p) (is q.state sleeping) (record q { state = runnable }) q
      (λ e. record {
        same_parent = refl;
        same_place = refl;
        same_kind = ground (arith, e);
        waits = λ k a b. absurd (ground (arith, a));
        busy = λ _ _ a. absurd (ground (arith, a));
      })
      (λ _. record {
        same_parent = refl;
        same_place = refl;
        same_kind = refl;
        waits = λ k a b. (a, b);
        busy = λ _ h. h;
      })

kill_found-Tree : (o : Option ℕ) (s : Machine) → Tree s → Tree (kill_found o s).1
unfolding kill_found
kill_found-Tree none s h = h
kill_found-Tree (some i) s h =
    let q = record (s.procs i) { killed = true } in
    put-Tree i (if is q.state sleeping then record q { state = runnable } else q) s.cpus s
      (killed-Calm (s.procs i)) h

pub kkill-Tree : (pid : ℕ) (s : Machine) → Tree s → Tree (kkill pid s).1
unfolding kkill
kkill-Tree pid s h = kill_found-Tree (find_pid nproc 0 pid s.procs) s h
