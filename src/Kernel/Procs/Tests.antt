-- ===== src/Kernel/Procs/Tests.antt =====
-- kernel/proc.c: init forks a child, the child exits, and init reaps it.
use os_network_concurrency_s.Common.{ℕ, ◌≡◌, ◌≢◌, ◌⊎◌, none, some, update, true, false, arith, refl}
use os_network_concurrency_s.Kernel.Procs.{
  Machine, Process, unused, sleeping, runnable, running, zombie, no_chan, on_proc, ready, kwait,
}
use os_network_concurrency_s.Kernel.Procs.Steps.{
  forks, forks_parent, forks_ready, exits, schedules, step, Reach, start, later,
}
use os_network_concurrency_s.Kernel.Procs.Tree.{kind, alive, exited}
use os_network_concurrency_s.Kernel.Procs.Safety.{
  WaitEnds, Reach-family, Reach-cpus, kwait-WaitEnds,
}

abbrev free : Process
free = record {
  state = unused;
  chan = no_chan;
  killed = false;
  xstate = 0;
  pid = 0;
  parent = none;
  place = ready;
}

abbrev booted : Machine
booted = record {
  procs = update (λ _. free) 0 (record free { state = runnable; pid = 1 });
  nextpid = 2;
  initproc = 0;
  cpus = λ _. none;
}

booted-Reach : Reach booted
booted-Reach =
    start booted (omega arith) refl refl refl (λ i. ground arith) (λ i ne. ground (arith, ne))
      (λ c. refl)

-- CPU 0 runs init, which forks process 1; CPU 1 runs that one, which exits.
abbrev forked : Machine
forked = step 1 (exits 7) (
    step 1 (schedules 1) (
      step 0 forks_ready (step 0 forks_parent (step 0 (forks true) (step 0 (schedules 0) booted)))))

forked-Reach : Reach forked
forked-Reach = later 1 (exits 7) (
    later 1 (schedules 1) (
      later 0 forks_ready
        (later 0 forks_parent (later 0 (forks true) (later 0 (schedules 0) booted-Reach)))))

Reach-family_example :
    ((i j : ℕ) → (forked.procs j).parent ≡ some i → kind (forked.procs i).state ≡ alive)
    × (((j : ℕ)
          → j ≢ forked.initproc
          → (kind (forked.procs j).state ≡ alive) ⊎ (kind (forked.procs j).state ≡ exited)
          → (forked.procs j).parent ≢ none)
        × ((i j : ℕ)
            → (forked.procs j).parent ≡ some i
            → (forked.procs j).state ≡ zombie
            → ¬ (((forked.procs i).state ≡ sleeping) × ((forked.procs i).chan ≡ on_proc i))))
Reach-family_example = Reach-family forked-Reach

Reach-cpus_example :
    ((c i : ℕ) → forked.cpus c ≡ some i → (forked.procs i).state ≡ running)
    × ((c d i : ℕ) → forked.cpus c ≡ some i → forked.cpus d ≡ some i → c ≡ d)
Reach-cpus_example = Reach-cpus forked-Reach

kwait-WaitEnds_example : WaitEnds 0 true 0 forked (kwait 0 true 0 forked)
kwait-WaitEnds_example = kwait-WaitEnds 0 true 0 forked-Reach
