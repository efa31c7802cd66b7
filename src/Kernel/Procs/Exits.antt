-- ===== src/Kernel/Procs/Exits.antt =====
-- kernel/proc.c: kexit and kwait keep the tree of processes.
use mathlib.Core.Path.{subst}
use os_network_concurrency_s.Common.{
  ℕ, zero, suc, ◌+◌, ◌≡◌, ◌≢◌, ◌≤◌, ◌<◌, Option, none, some, Bool, true, false, if◌then◌else◌, ◌&&◌,
  ◌==◌, not, arith, refl, sym, ◌∙◌, ap, update, if-all, ℕ_discrete, fun_ext,
}
use os_network_concurrency_s.Kernel.Procs.{
  Machine, Process, sleeping, runnable, running, zombie, Chan, on_proc, ready, nproc, is, same_chan,
  is_some, put, woken, wakeup, has_child, adopted, reparent, wake_parent, kexit, freeproc,
  find_zombie, sleep, WaitEnd, failed, waits, wait_found, kwait,
}
use os_network_concurrency_s.Kernel.Procs.Tree.{alive, kind, Tree}
use os_network_concurrency_s.Kernel.Procs.Calm.{wakeup-Tree}

pub has_child-false :
    (i n : ℕ) (procs : ℕ → Process)
    → has_child i n procs ≡ false
    → (j : ℕ) → j < n
    → (procs j).parent ≡ some i
    → ⊥
unfolding has_child
has_child-false i zero procs e j lt p = absurd (omega (arith, lt))
has_child-false i (suc n) procs e j lt p = elim (ℕ_discrete j n) [
  | yes same ↦ absurd (ground (arith, e, same, p))
  | no ne ↦ has_child-false i n procs (ground (arith, e)) j (omega (arith, lt, ne)) p
]

-- No process below the table's end, and so none at all.
no_child :
    (i : ℕ) (s : Machine)
    → Tree s
    → has_child i nproc s.procs ≡ false
    → (j : ℕ) → (s.procs j).parent ≢ some i
no_child i s h e j p =
    has_child-false i nproc s.procs e j
      (h.low j (λ a. absurd (ground (arith, p, h.absent_parent j a)))) p

-- How `reparent` changes each process: the children of `i` become children of `k`.
record Adopted (i k : ℕ) (p q : Process) : Type 0 where
  new_parent : q.parent ≡ (if is_some p.parent i then some k else p.parent)
  same_place : q.place ≡ p.place
  same_kind : kind q.state ≡ kind p.state
  waits :
      (m : ℕ)
      → q.state ≡ sleeping
      → q.chan ≡ on_proc m
      → (p.state ≡ sleeping) × (p.chan ≡ on_proc m)
  busy : p.state ≢ sleeping → q.state ≢ sleeping

adopted-Adopted : (i k : ℕ) (p : Process) → Adopted i k p (adopted i k p)
adopted-Adopted i k p = record {
  new_parent = ground arith;
  same_place = ground arith;
  same_kind = ground arith;
  waits = λ m a b. (ground (arith, a), ground (arith, b));
  busy = λ h a. h (ground (arith, a));
}

woken-Adopted :
    (i k : ℕ) (chan : Chan) (p q : Process) → Adopted i k p q → Adopted i k p (woken chan q)
woken-Adopted i k chan p q a =
    if-all (Adopted i k p) (is q.state sleeping && same_chan q.chan chan)
      (record q { state = runnable }) q
      (λ e. record {
        new_parent = a.new_parent;
        same_place = a.same_place;
        same_kind = ground (arith, e, a.same_kind);
        waits = λ m x y. absurd (ground (arith, x));
        busy = λ _ x. absurd (ground (arith, x));
      })
      (λ _. a)

-- After `reparent` of an exiting process other than init.
record Reparented (i : ℕ) (s t : Machine) : Type 0 where
  tree : Tree t
  childless : (j : ℕ) → (t.procs j).parent ≢ some i
  same_place : (t.procs i).place ≡ (s.procs i).place
  same_kind : kind (t.procs i).state ≡ kind (s.procs i).state
  same_init : t.initproc ≡ s.initproc

Adopted-Reparented :
    (i : ℕ) (s t : Machine)
    → t.initproc ≡ s.initproc
    → ((j : ℕ) → Adopted i s.initproc (s.procs j) (t.procs j))
    → ((t.procs s.initproc).state ≡ sleeping → (t.procs s.initproc).chan ≡ on_proc s.initproc → ⊥)
    → i ≢ s.initproc
    → Tree s
    → Reparented i s t
Adopted-Reparented i s t e ad awake ne h = record {
  tree = record {
    low = λ j l. h.low j (ground (arith, l, (ad j).same_kind));
    absent_parent =
        λ j a. ground (arith, a, (ad j).same_kind, (ad j).new_parent, h.absent_parent j);
    parents =
        λ j k p. ground (arith, p, (ad j).same_kind, (ad k).new_parent, h.parents j k, h.init);
    waiting = λ j k p z a b. ground (
      arith,
      p,
      z,
      a,
      b,
      (ad k).same_kind,
      (ad k).new_parent,
      (ad j).waits j a b,
      h.waiting j k,
      awake,
    );
    init = ground (arith, e, (ad s.initproc).same_kind, h.init);
    cared = λ j n a b. ground (arith, n, a, b, e, (ad j).same_kind, (ad j).new_parent, h.cared j);
    made = λ j n c. ground (arith, c, (ad j).same_place, (ad n).same_kind, h.made j n);
    given = λ j n p. ground (arith, p, (ad j).same_place, (ad n).new_parent, h.given j n);
    forking =
        λ j r. ground (arith, r, (ad j).same_place, (ad j).same_kind, h.forking j, (ad j).busy);
    one_fork =
        λ j k n a b. ground (arith, a, b, (ad j).same_place, (ad k).same_place, h.one_fork j k n);
  };
  childless = λ j p. ground (arith, p, (ad j).new_parent, ne);
  same_place = (ad i).same_place;
  same_kind = (ad i).same_kind;
  same_init = e;
}

childless-Adopted : (i k : ℕ) (p : Process) → p.parent ≢ some i → adopted i k p ≡ p
childless-Adopted i k p n = ground (arith, n)

reparent-Reparented :
    (i : ℕ) (s : Machine) → Tree s → i ≢ s.initproc → Reparented i s (reparent i s)
unfolding reparent wakeup
reparent-Reparented i s h ne =
    let k = s.initproc in
    let s' = record s { procs = λ j. adopted i k (s.procs j) } in
    if-all (Reparented i s) (has_child i nproc s.procs) (wakeup (on_proc k) i s') s'
      (λ _.
        Adopted-Reparented i s (wakeup (on_proc k) i s') refl
          (λ j.
            if-all (Adopted i k (s.procs j)) (i == j) (s'.procs j) (woken (on_proc k) (s'.procs j))
              (λ _. adopted-Adopted i k (s.procs j))
              (λ _.
                woken-Adopted i k (on_proc k) (s.procs j) (s'.procs j)
                  (adopted-Adopted i k (s.procs j))))
          (λ a b. ground (arith, a, b, ne)) ne h)
      (λ e.
        let none_of = no_child i s h e in
        let same : s'.procs ≡ s.procs =
          fun_ext (λ j. childless-Adopted i k (s.procs j) (none_of j)) in
        subst (λ ps. Reparented i s (record s { procs = ps })) (sym same)
          (record {
            tree = h;
            childless = none_of;
            same_place = refl;
            same_kind = refl;
            same_init = refl;
          }))

-- After the wakeup of the parent: it does not wait any more.
record ParentWoken (i : ℕ) (s t : Machine) : Type 0 where
  tree : Tree t
  childless : (j : ℕ) → (t.procs j).parent ≢ some i
  same : t.procs i ≡ s.procs i
  same_init : t.initproc ≡ s.initproc
  awake :
      (k : ℕ)
      → (t.procs i).parent ≡ some k
      → (t.procs k).state ≡ sleeping
      → (t.procs k).chan ≡ on_proc k
      → ⊥

wake_parent-ParentWoken :
    (o : Option ℕ) (i : ℕ) (s : Machine)
    → (s.procs i).parent ≡ o
    → Tree s
    → ((j : ℕ) → (s.procs j).parent ≢ some i)
    → ParentWoken i s (wake_parent o i s)
unfolding wakeup
wake_parent-ParentWoken none i s e h free = record {
  tree = h;
  childless = free;
  same = refl;
  same_init = refl;
  awake = λ k p a b. absurd (ground (arith, e, p));
}
wake_parent-ParentWoken (some k) i s e h free = record {
  tree = wakeup-Tree (on_proc k) i s h;
  childless = λ j p. free j (ground (arith, p));
  same = ground arith;
  same_init = refl;
  awake = λ m p a b. ground (arith, e, p, a, b, free i);
}

-- The exiting process, once it has no children and its parent is awake.
zombie-Tree :
    (i status : ℕ) (cpus : ℕ → Option ℕ) (s t : Machine)
    → ParentWoken i s t
    → i ≢ t.initproc
    → kind (t.procs i).state ≡ alive
    → (t.procs i).place ≡ ready
    → Tree
        (record (put i (record (t.procs i) { xstate = status; state = zombie }) t) { cpus = cpus })
zombie-Tree i status cpus s t w ne live rest =
    let h = w.tree in
    record {
      low = λ j a. ground (arith, a, h.low j, live);
      absent_parent = λ j a. ground (arith, a, h.absent_parent j, live);
      parents = λ j k p. ground (arith, p, h.parents j k, w.childless k, live);
      waiting =
          λ j k p z a b. ground (arith, p, z, a, b, h.waiting j k, w.childless k, live, w.awake j);
      init = ground (arith, ne, h.init);
      cared = λ j o a b. ground (arith, o, a, b, live, ne, h.cared j);
      made = λ j n c. ground (arith, c, live, h.made j n);
      given = λ j n p. ground (arith, p, live, h.given j n);
      forking = λ j b. ground (arith, b, rest, h.forking j);
      one_fork = λ j k n a b. ground (arith, a, b, live, h.one_fork j k n);
    }

-- A panic, or a state with the invariant.
abbrev pub KeepsTree : Option Machine → Type 0
KeepsTree none = Unit
KeepsTree (some t) = Tree t

pub kexit-Tree :
    (c status i : ℕ) (s : Machine)
    → (s.procs i).state ≡ running
    → (s.procs i).place ≡ ready
    → Tree s
    → KeepsTree (kexit c status i s)
unfolding kexit
kexit-Tree c status i s r rest h =
    if-all KeepsTree (i == s.initproc) none _ (λ _. tt)
      (λ e.
        let ne : i ≢ s.initproc = ground (arith, e) in
        let s' = reparent i s in
        let rep = reparent-Reparented i s h ne in
        let w = wake_parent-ParentWoken (s'.procs i).parent i s' refl rep.tree rep.childless in
        zombie-Tree i status (update s.cpus c none) s' (wake_parent (s'.procs i).parent i s') w
          (λ q. ne (q ∙ w.same_init ∙ rep.same_init))
          (ap {A = Process} (λ p. kind p.state) w.same ∙ rep.same_kind ∙ ap kind r)
          (ap {A = Process} (λ p. p.place) w.same ∙ rep.same_place ∙ rest))

-- A zombie that is found is one of the process's children.
pub find_zombie-some :
    (n j i : ℕ) (procs : ℕ → Process) (k : ℕ)
    → find_zombie n j i procs ≡ some k
    → ((procs k).parent ≡ some i) × ((procs k).state ≡ zombie)
unfolding find_zombie
find_zombie-some zero j i procs k e = absurd (ground (arith, e))
find_zombie-some (suc n) j i procs k e = ground (arith, e, find_zombie-some n (j + 1) i procs k)

pub find_zombie-none :
    (n j i : ℕ) (procs : ℕ → Process)
    → find_zombie n j i procs ≡ none
    → (k : ℕ) → j ≤ k
    → k < j + n
    → (procs k).parent ≡ some i
    → (procs k).state ≡ zombie
    → ⊥
unfolding find_zombie
find_zombie-none zero j i procs e k lo hi p z = absurd (omega (arith, lo, hi))
find_zombie-none (suc n) j i procs e k lo hi p z = elim (ℕ_discrete j k) [
  | yes same ↦ absurd (ground (arith, e, same, p, z))
  | no ne ↦
      find_zombie-none n (j + 1) i procs (ground (arith, e)) k (omega (arith, lo, ne))
        (omega (arith, hi)) p z
]

reaped-Tree :
    (j i : ℕ) (s : Machine)
    → Tree s
    → (s.procs j).parent ≡ some i
    → (s.procs j).state ≡ zombie
    → Tree (put j (freeproc (s.procs j)) s)
unfolding freeproc
reaped-Tree j i s h p z = record {
  low = λ k a. ground (arith, a, h.low k, z);
  absent_parent = λ k a. ground (arith, a, h.absent_parent k, z);
  parents = λ k m q. ground (arith, q, h.parents k m, z, h.parents j m);
  waiting = λ k m q y a b. ground (arith, q, y, a, b, h.waiting k m, z);
  init = ground (arith, z, h.init);
  cared = λ k o a b. ground (arith, o, a, b, z, h.cared k);
  made = λ k n c. ground (arith, c, z, h.made k n);
  given = λ k n q. ground (arith, q, z, h.given k n, h.made k n);
  forking = λ k b. ground (arith, b, z, h.forking k);
  one_fork = λ k m n a b. ground (arith, a, b, z, h.one_fork k m n);
}

waits-Tree :
    (c i : ℕ) (s : Machine)
    → Tree s
    → (s.procs i).state ≡ running
    → (s.procs i).place ≡ ready
    → ((k : ℕ) → (s.procs k).parent ≡ some i → (s.procs k).state ≡ zombie → ⊥)
    → Tree (sleep c (on_proc i) i s)
unfolding sleep
waits-Tree c i s h r rest free = record {
  low = λ k a. ground (arith, a, h.low k, r);
  absent_parent = λ k a. ground (arith, a, h.absent_parent k, r);
  parents = λ k m q. ground (arith, q, h.parents k m, r);
  waiting = λ k m q y a b. ground (arith, q, y, a, b, h.waiting k m, r, free m);
  init = ground (arith, r, h.init);
  cared = λ k o a b. ground (arith, o, a, b, r, h.cared k);
  made = λ k n q. ground (arith, q, r, h.made k n);
  given = λ k n q. ground (arith, q, r, h.given k n);
  forking = λ k b. ground (arith, b, r, rest, h.forking k);
  one_fork = λ k m n a b. ground (arith, a, b, r, h.one_fork k m n);
}

wait_found-Tree :
    (c : ℕ) (copied : Bool) (i : ℕ) (o : Option ℕ) (s : Machine)
    → find_zombie nproc 0 i s.procs ≡ o
    → Tree s
    → (s.procs i).state ≡ running
    → (s.procs i).place ≡ ready
    → Tree (wait_found c copied i o s).1
unfolding wait_found
wait_found-Tree c true i (some j) s e h r rest =
    let f = find_zombie-some nproc 0 i s.procs j e in reaped-Tree j i s h f.0 f.1
wait_found-Tree c false i (some j) s e h r rest = h
wait_found-Tree c copied i none s e h r rest =
    let P = λ (x : WaitEnd × Machine). Tree x.1 in
    if-all P (not (has_child i nproc s.procs)) (failed, s) _ (λ _. h)
      (λ _.
        if-all P (s.procs i).killed (failed, s) (waits, sleep c (on_proc i) i s) (λ _. h)
          (λ _. waits-Tree c i s h r rest (λ k p z.
            find_zombie-none nproc 0 i s.procs e k (omega arith)
              (h.low k (λ a. absurd (ground (arith, a, z)))) p z)))

pub kwait-Tree :
    (c : ℕ) (copied : Bool) (i : ℕ) (s : Machine)
    → Tree s
    → (s.procs i).state ≡ running
    → (s.procs i).place ≡ ready
    → Tree (kwait c copied i s).1
unfolding kwait
kwait-Tree c copied i s h r rest =
    wait_found-Tree c copied i (find_zombie nproc 0 i s.procs) s refl h r rest
