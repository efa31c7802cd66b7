-- ===== src/Kernel/Procs/Steps.antt =====
-- kernel/proc.c: what the CPUs can do, in any order.
use os_network_concurrency_s.Common.{ℕ, ◌≡◌, ◌<◌, Option, none, some, Bool, if◌then◌else◌}
use os_network_concurrency_s.Kernel.Procs.{
  Machine, on_other, at_rest, fork_alloc, fork_parent, fork_ready, kexit, kwait, sleep, yield,
  wakeup, kkill, schedule, nproc, unused, ready, runnable,
}

-- A step of the process that a CPU runs, or of the CPU's scheduler.
pub data Action : Type 0 where
  forks : (enough : Bool) → Action
  forks_parent : Action
  forks_ready : Action
  exits : (status : ℕ) → Action
  waits_for : (copied : Bool) → Action
  sleeps : (address : ℕ) → Action
  yields : Action
  wakes : (address : ℕ) → Action
  kills : (pid : ℕ) → Action
  schedules : (process : ℕ) → Action

abbrev pub or_stay : Machine → Option Machine → Machine
or_stay s none = s
or_stay s (some t) = t

-- The step of process `i` on CPU `c` outside `kfork`.
unfoldable pub act : ℕ → Action → ℕ → Machine → Machine
act c (forks enough) i s = fork_alloc enough i s
act c (exits status) i s = or_stay s (kexit c status i s)
act c (waits_for copied) i s = (kwait c copied i s).1
act c (sleeps address) i s = sleep c (on_other address) i s
act c yields i s = yield c i s
act c (wakes address) i s = wakeup (on_other address) i s
act c (kills pid) i s = (kkill pid s).1
act c _ i s = s

-- Within `kfork` a process goes on with it, or is preempted.
unfoldable pub act_in_fork : ℕ → Action → ℕ → Machine → Machine
act_in_fork c forks_parent i s = fork_parent (s.procs i).place i s
act_in_fork c forks_ready i s = fork_ready (s.procs i).place i s
act_in_fork c yields i s = yield c i s
act_in_fork c _ i s = s

unfoldable pub act_on : ℕ → Action → Option ℕ → Machine → Machine
act_on c (schedules i) none s = schedule c i s
act_on c _ none s = s
act_on c a (some i) s = if at_rest (s.procs i).place then act c a i s else act_in_fork c a i s

unfoldable pub step : ℕ → Action → Machine → Machine
step c a s = act_on c a (s.cpus c) s

-- After `procinit` and `userinit`: one runnable process, and no CPU runs one.
pub data Reach : Machine → Type 0 where
  start :
      (s : Machine)
      → s.initproc < nproc
      → (s.procs s.initproc).state ≡ runnable
      → (s.procs s.initproc).pid ≡ 1
      → s.nextpid ≡ 2
      → ((i : ℕ) → ((s.procs i).place ≡ ready) × ((s.procs i).parent ≡ none))
      → ((i : ℕ) → (i ≡ s.initproc → ⊥) → ((s.procs i).state ≡ unused) × ((s.procs i).pid ≡ 0))
      → ((c : ℕ) → s.cpus c ≡ none)
      → Reach s
  later : {s : Machine} (c : ℕ) (a : Action) → Reach s → Reach (step c a s)
