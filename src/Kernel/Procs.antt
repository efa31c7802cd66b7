-- ===== src/Kernel/Procs.antt =====
-- kernel/proc.c: the process table. What runs under `wait_lock`, or under the lock of one process, is
-- one step of the process that a CPU runs; any CPU may go on after each step. A process is the number
-- of its place in `proc`, and loops over the table go over all places. Whether there is memory for a
-- new process, and whether a copy to user memory succeeds, are arguments of the steps.
pub mod Steps
pub mod Tree
pub mod Calm
pub mod Forks
pub mod Exits
pub mod Cpus
pub mod Safety
mod Tests
use os_network_concurrency_s.Common.{
  ℕ, zero, suc, ◌+◌, Option, none, some, ltb, ◌==◌, if◌then◌else◌, update, Bool, true, false, ◌&&◌,
  not,
}

abbrev pub nproc : ℕ
nproc = 64

-- `enum procstate`
pub data ProcState : Type 0 where
  unused : ProcState
  used : ProcState
  sleeping : ProcState
  runnable : ProcState
  running : ProcState
  zombie : ProcState

-- What a process sleeps on: nothing, a process in `kwait`, or another address.
pub data Chan : Type 0 where
  no_chan : Chan
  on_proc : ℕ → Chan
  on_other : ℕ → Chan

-- How far `kfork` is: not in it, before `np->parent = p`, and before `np->state = RUNNABLE`.
pub data Place : Type 0 where
  ready : Place
  new_child : ℕ → Place
  parented : ℕ → Place

-- The fields of `struct proc` that the table's functions share.
pub record Process : Type 0 where
  pub state : ProcState
  pub chan : Chan
  pub killed : Bool
  pub xstate : ℕ
  pub pid : ℕ
  pub parent : Option ℕ
  pub place : Place

-- `proc`, `nextpid`, `initproc`, and `c->proc` of each CPU.
pub record Machine : Type 0 where
  pub procs : ℕ → Process
  pub nextpid : ℕ
  pub initproc : ℕ
  pub cpus : ℕ → Option ℕ

abbrev pub is : ProcState → ProcState → Bool
is unused unused = true
is used used = true
is sleeping sleeping = true
is runnable runnable = true
is running running = true
is zombie zombie = true
is _ _ = false

abbrev pub same_chan : Chan → Chan → Bool
same_chan (on_proc i) (on_proc j) = i == j
same_chan (on_other i) (on_other j) = i == j
same_chan _ _ = false

abbrev pub is_some : Option ℕ → ℕ → Bool
is_some none j = false
is_some (some i) j = i == j

abbrev pub at_rest : Place → Bool
at_rest ready = true
at_rest _ = false

abbrev pub put : ℕ → Process → Machine → Machine
put i p s = record s { procs = update s.procs i p }

-- The first UNUSED process from `i`, with the rounds left.
unfoldable pub find_unused : ℕ → ℕ → (ℕ → Process) → Option ℕ
find_unused zero i procs = none
find_unused (suc n) i procs =
    let rest = find_unused n (i + 1) procs in if is (procs i).state unused then some i else rest

unfoldable pub freeproc : Process → Process
freeproc p = record p {
  pid = 0;
  parent = none;
  chan = no_chan;
  killed = false;
  xstate = 0;
  state = unused;
}

-- `allocproc` from `found` on. `killed`, `parent`, `chan` and `xstate` are not set.
unfoldable pub found_proc : ℕ → Process → Process
found_proc nextpid p = record p { pid = nextpid; state = used }

-- The part of `kfork` with the lock of the new process held.
unfoldable pub fork_found : Bool → ℕ → Option ℕ → Machine → Machine
fork_found enough i none s = s
fork_found enough i (some n) s =
    let np = found_proc s.nextpid (s.procs n) in
    let s' = record s { nextpid = s.nextpid + 1 } in
    if enough
    then put i (record (s.procs i) { place = new_child n }) (put n np s')
    else put n (freeproc np) s'

unfoldable pub fork_alloc : Bool → ℕ → Machine → Machine
fork_alloc enough i s = fork_found enough i (find_unused nproc 0 s.procs) s

-- `np->parent = p`
unfoldable pub fork_parent : Place → ℕ → Machine → Machine
fork_parent (new_child n) i s =
    put i (record (s.procs i) { place = parented n })
      (put n (record (s.procs n) { parent = some i }) s)
fork_parent _ i s = s

-- `np->state = RUNNABLE`, and the return
unfoldable pub fork_ready : Place → ℕ → Machine → Machine
fork_ready (parented n) i s =
    put i (record (s.procs i) { place = ready }) (put n (record (s.procs n) { state = runnable }) s)
fork_ready _ i s = s

abbrev pub woken : Chan → Process → Process
woken chan p =
    if is p.state sleeping && same_chan p.chan chan then record p { state = runnable } else p

-- `wakeup` by process `i`, which it leaves out.
unfoldable pub wakeup : Chan → ℕ → Machine → Machine
wakeup chan i s = record s { procs = λ j. if i == j then s.procs j else woken chan (s.procs j) }

-- `reparent`: with each child that it finds, it wakes up init.
unfoldable pub has_child : ℕ → ℕ → (ℕ → Process) → Bool
has_child i zero procs = false
has_child i (suc n) procs =
    let rest = has_child i n procs in if is_some (procs n).parent i then true else rest

abbrev pub adopted : ℕ → ℕ → Process → Process
adopted i initproc p = if is_some p.parent i then record p { parent = some initproc } else p

unfoldable pub reparent : ℕ → Machine → Machine
unfolding wakeup
reparent i s =
    let s' = record s { procs = λ j. adopted i s.initproc (s.procs j) } in
    if has_child i nproc s.procs then wakeup (on_proc s.initproc) i s' else s'

abbrev pub wake_parent : Option ℕ → ℕ → Machine → Machine
wake_parent none i s = s
wake_parent (some k) i s = wakeup (on_proc k) i s

-- The part of `kexit` under `wait_lock`, and the switch to the scheduler of CPU `c`. `none` is the
-- panic of init.
unfoldable pub kexit : ℕ → ℕ → ℕ → Machine → Option Machine
kexit c status i s =
    if i == s.initproc
    then none
    else let s' = reparent i s in
      let s'' = wake_parent (s'.procs i).parent i s' in
      some (record (put i (record (s''.procs i) { xstate = status; state = zombie }) s'') {
        cpus = update s.cpus c none;
      })

-- The loop of `kwait` over the table: the first child of `i` that is a zombie, with the rounds left.
unfoldable pub find_zombie : ℕ → ℕ → ℕ → (ℕ → Process) → Option ℕ
find_zombie zero j i procs = none
find_zombie (suc n) j i procs =
    let rest = find_zombie n (j + 1) i procs in
    if is_some (procs j).parent i && is (procs j).state zombie then some j else rest

-- The sleep on a channel: the state of process `i`, and the switch to the scheduler of CPU `c`.
unfoldable pub sleep : ℕ → Chan → ℕ → Machine → Machine
sleep c chan i s = record (put i (record (s.procs i) { chan = chan; state = sleeping }) s) {
  cpus = update s.cpus c none;
}

-- What a stretch of `kwait` ends with.
pub data WaitEnd : Type 0 where
  reaped : ℕ → WaitEnd
  failed : WaitEnd
  waits : WaitEnd

-- With the zombie that was found; `copied` says whether its status could be copied out.
unfoldable pub wait_found : ℕ → Bool → ℕ → Option ℕ → Machine → WaitEnd × Machine
wait_found c copied i (some j) s =
    if copied then (reaped (s.procs j).pid, put j (freeproc (s.procs j)) s) else (failed, s)
wait_found c copied i none s =
    if not (has_child i nproc s.procs)
    then (failed, s)
    else if (s.procs i).killed
    then (failed, s)
    else (waits, sleep c (on_proc i) i s)

unfoldable pub kwait : ℕ → Bool → ℕ → Machine → WaitEnd × Machine
kwait c copied i s = wait_found c copied i (find_zombie nproc 0 i s.procs) s

unfoldable pub yield : ℕ → ℕ → Machine → Machine
yield c i s = record (put i (record (s.procs i) { state = runnable }) s) {
  cpus = update s.cpus c none;
}

-- The first process with the pid, from `i`, with the rounds left.
unfoldable pub find_pid : ℕ → ℕ → ℕ → (ℕ → Process) → Option ℕ
find_pid zero i pid procs = none
find_pid (suc n) i pid procs =
    let rest = find_pid n (i + 1) pid procs in if (procs i).pid == pid then some i else rest

unfoldable pub kill_found : Option ℕ → Machine → Bool × Machine
kill_found none s = (false, s)
kill_found (some i) s =
    let p = record (s.procs i) { killed = true } in
    (true, put i (if is p.state sleeping then record p { state = runnable } else p) s)

unfoldable pub kkill : ℕ → Machine → Bool × Machine
kkill pid s = kill_found (find_pid nproc 0 pid s.procs) s

-- A round of `scheduler` on a CPU that runs nothing. The process goes on at once to where it gave up
-- the CPU, in `sleep` to `p->chan = 0`; elsewhere `chan` is 0 already.
unfoldable pub schedule : ℕ → ℕ → Machine → Machine
schedule c i s =
    if is (s.procs i).state runnable
    then record (put i (record (s.procs i) { state = running; chan = no_chan }) s) {
      cpus = update s.cpus c (some i);
    }
    else s
