-- ===== src/Kernel/Procs/Tree.antt =====
-- kernel/proc.c: the invariant of parents and children, and the steps that only wake, suspend or run.
use mathlib.Core.Path.{subst}
use os_network_concurrency_s.Common.{
  ℕ, ◌≡◌, ◌≢◌, ◌<◌, Option, none, some, false, ◌&&◌, ◌==◌, arith, refl, sym, ◌∙◌, if-all,
}
use os_network_concurrency_s.Kernel.Procs.{
  Machine, Process, ProcState, unused, used, sleeping, runnable, running, zombie, Chan, on_proc,
  Place, ready, new_child, parented, nproc, is, same_chan, at_rest, put, woken,
}

-- What `kwait` can find a process to be: not there, being made, exited, or alive.
pub data Kind : Type 0 where
  absent : Kind
  embryo : Kind
  exited : Kind
  alive : Kind

abbrev pub kind : ProcState → Kind
kind unused = absent
kind used = embryo
kind zombie = exited
kind sleeping = alive
kind runnable = alive
kind running = alive

abbrev pub child_of : Place → Option ℕ
child_of ready = none
child_of (new_child n) = some n
child_of (parented n) = some n

pub record Tree (s : Machine) : Type 0 where
  pub low : (i : ℕ) → kind (s.procs i).state ≢ absent → i < nproc
  pub absent_parent : (i : ℕ) → kind (s.procs i).state ≡ absent → (s.procs i).parent ≡ none
  -- A process that is named as a parent is alive.
  pub parents : (i j : ℕ) → (s.procs j).parent ≡ some i → kind (s.procs i).state ≡ alive
  -- No process waits in `kwait` while it has a child that has exited.
  pub waiting :
      (i j : ℕ)
      → (s.procs j).parent ≡ some i
      → kind (s.procs j).state ≡ exited
      → (s.procs i).state ≡ sleeping
      → (s.procs i).chan ≡ on_proc i
      → ⊥
  pub init : kind (s.procs s.initproc).state ≡ alive
  -- Apart from init, every process that is alive or has exited has a parent.
  pub cared :
      (j : ℕ)
      → j ≢ s.initproc
      → kind (s.procs j).state ≢ absent
      → kind (s.procs j).state ≢ embryo
      → (s.procs j).parent ≢ none
  pub made : (i n : ℕ) → child_of (s.procs i).place ≡ some n → kind (s.procs n).state ≡ embryo
  pub given : (i n : ℕ) → (s.procs i).place ≡ parented n → (s.procs n).parent ≢ none
  pub forking :
      (i : ℕ)
      → at_rest (s.procs i).place ≡ false
      → (kind (s.procs i).state ≡ alive) × ((s.procs i).state ≢ sleeping)
  pub one_fork :
      (i k n : ℕ)
      → child_of (s.procs i).place ≡ some n
      → child_of (s.procs k).place ≡ some n
      → i ≡ k

-- A change of a process that keeps its kind and its family, and does not put it to sleep in `kwait`.
pub record Calm (p q : Process) : Type 0 where
  pub same_parent : q.parent ≡ p.parent
  pub same_place : q.place ≡ p.place
  pub same_kind : kind q.state ≡ kind p.state
  pub waits :
      (k : ℕ)
      → q.state ≡ sleeping
      → q.chan ≡ on_proc k
      → (p.state ≡ sleeping) × (p.chan ≡ on_proc k)
  pub busy : at_rest p.place ≡ false → p.state ≢ sleeping → q.state ≢ sleeping

pub Tree-Calm :
    (s t : Machine)
    → t.initproc ≡ s.initproc
    → ((i : ℕ) → Calm (s.procs i) (t.procs i))
    → Tree s
    → Tree t
Tree-Calm s t e calm h = record {
  low = λ i l. h.low i (ground (arith, l, (calm i).same_kind));
  absent_parent = λ i a. ground (arith, a, calm i, h.absent_parent i);
  parents = λ i j p. ground (arith, p, calm i, calm j, h.parents i j);
  waiting = λ i j p z a b.
      let w = (calm i).waits i a b in
      h.waiting i j (sym (calm j).same_parent ∙ p) (sym (calm j).same_kind ∙ z) w.0 w.1;
  init = ground (arith, e, calm s.initproc, h.init);
  cared = λ j n a b. ground (arith, n, a, b, e, calm j, h.cared j);
  made = λ i n c. ground (arith, c, calm i, calm n, h.made i n);
  given = λ i n p. ground (arith, p, calm i, calm n, h.given i n);
  forking = λ i r. ground (arith, r, calm i, h.forking i, (calm i).busy);
  one_fork = λ i k n a b. ground (arith, a, b, calm i, calm k, h.one_fork i k n);
}

pub same-Calm : (p : Process) → Calm p p
same-Calm p = record {
  same_parent = refl;
  same_place = refl;
  same_kind = refl;
  waits = λ k a b. (a, b);
  busy = λ _ h. h;
}

pub woken-Calm : (chan : Chan) (p : Process) → Calm p (woken chan p)
woken-Calm chan p =
    if-all (Calm p) (is p.state sleeping && same_chan p.chan chan) (record p { state = runnable }) p
      (λ e. record {
        same_parent = refl;
        same_place = refl;
        same_kind = ground (arith, e);
        waits = λ k a b. absurd (ground (arith, a));
        busy = λ _ _ a. absurd (ground (arith, a));
      })
      (λ _. same-Calm p)

-- One process changes calmly, the others not at all.
pub put-Calm :
    (i : ℕ) (q : Process) (s : Machine)
    → Calm (s.procs i) q
    → (j : ℕ) → Calm (s.procs j) ((put i q s).procs j)
put-Calm i q s c j =
    if-all (Calm (s.procs j)) (i == j) q (s.procs j)
      (λ e. subst (λ k. Calm (s.procs k) q) (ground (arith, e)) c) (λ _. same-Calm (s.procs j))
