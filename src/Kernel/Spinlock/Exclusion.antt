-- ===== src/Kernel/Spinlock/Exclusion.antt =====
-- kernel/spinlock.c: mutual exclusion, and that no CPU panics.
use mathlib.Core.Path.{subst}
use os_network_concurrency_s.Common.{
  ◌⊎◌, inl, inr, ℕ, ◌-◌, ◌≡◌, ◌≢◌, ◌<◌, if-all, Option, none, some, ltb, ◌==◌, if◌then◌else◌,
  update, Bool, true, false, ◌&&◌, arith, refl, ap, sym, ◌∙◌, ℕ_discrete,
}
use os_network_concurrency_s.Kernel.Spinlock.{
  Place, outside, spinning, taken, inside, releasing, Cpu, Machine, push_off, pop_off, is_cpu,
  holding, with_cpu, at, after_pop, cpu_step, Reach, start, later,
}

-- From the atomic swap of `acquire` to the one of `release`.
abbrev pub in_section : Place → Bool
in_section outside = false
in_section spinning = false
in_section taken = true
in_section inside = true
in_section releasing = true

abbrev pub is_inside : Place → Bool
is_inside inside = true
is_inside outside = false
is_inside spinning = false
is_inside taken = false
is_inside releasing = false

abbrev depth : Place → ℕ
depth outside = 0
depth spinning = 1
depth taken = 1
depth inside = 1
depth releasing = 1

record Inv (s : Machine) : Type 0 where
  one : (i j : ℕ) → in_section (s.cpus i).place ≡ true → in_section (s.cpus j).place ≡ true → i ≡ j
  locked : (i : ℕ) → in_section (s.cpus i).place ≡ true → s.locked ≡ true
  owner : (i : ℕ) → is_inside (s.cpus i).place ≡ is_cpu s.cpu i
  noff : (i : ℕ) → (s.cpus i).noff ≡ depth (s.cpus i).place
  off : (i : ℕ) → 0 < (s.cpus i).noff → (s.cpus i).intr ≡ false

-- What a step comes to: no panic, and the invariant.
abbrev Goes : Option Machine → Type 0
Goes none = ⊥
Goes (some t) = Inv t

-- Whose place changes, and how, decides the invariant.
moved :
    (i : ℕ) (c : Cpu) (s : Machine) (l : Bool) (o : Option ℕ)
    → Inv s
    → (in_section c.place ≡ true → (j : ℕ) → i ≢ j → in_section (s.cpus j).place ≡ false)
    → (in_section c.place ≡ true → l ≡ true)
    → ((j : ℕ) → i ≢ j → in_section (s.cpus j).place ≡ true → l ≡ true)
    → is_inside c.place ≡ is_cpu o i
    → ((j : ℕ) → i ≢ j → is_inside (s.cpus j).place ≡ is_cpu o j)
    → c.noff ≡ depth c.place
    → (0 < c.noff → c.intr ≡ false)
    → Inv (record { locked = l; cpu = o; cpus = update s.cpus i c })
moved i c s l o inv alone mine others is own depth_c off_c = record {
  one = λ j k hj hk. elim (ℕ_discrete i j) [
    | yes at_j ↦ elim (ℕ_discrete i k) [
      | yes at_k ↦ sym at_j ∙ at_k
      | no other ↦
          absurd (ground (arith, at_j, other, hj, hk, alone (ground (arith, at_j, hj)) k other))
    ]
    | no not_j ↦ elim (ℕ_discrete i k) [
      | yes at_k ↦
          absurd (ground (arith, at_k, not_j, hj, hk, alone (ground (arith, at_k, hk)) j not_j))
      | no not_k ↦ inv.one j k (ground (arith, not_j, hj)) (ground (arith, not_k, hk))
    ]
  ];
  locked = λ j. elim (ℕ_discrete i j) [
    | yes same ↦ λ h. mine (ground (arith, same, h))
    | no ne ↦ λ h. others j ne (ground (arith, ne, h))
  ];
  owner = λ j. elim (ℕ_discrete i j) [
    | yes same ↦ ground (arith, same, is)
    | no ne ↦ ground (arith, ne, own j ne)
  ];
  noff = λ j. elim (ℕ_discrete i j) [
    | yes same ↦ ground (arith, same, depth_c)
    | no ne ↦ ground (arith, ne, inv.noff j)
  ];
  off = λ j. elim (ℕ_discrete i j) [
    | yes same ↦ λ h. ground (arith, same, h, off_c)
    | no ne ↦ λ h. ground (arith, ne, h, inv.off j)
  ];
}

inside_section : (p : Place) → is_inside p ≡ true → in_section p ≡ true
inside_section inside h = refl
inside_section outside h = absurd (ground (arith, h))
inside_section spinning h = absurd (ground (arith, h))
inside_section taken h = absurd (ground (arith, h))
inside_section releasing h = absurd (ground (arith, h))

-- While a CPU is in its section, no other one is.
others_out :
    (i : ℕ) (s : Machine)
    → Inv s
    → in_section (s.cpus i).place ≡ true
    → (j : ℕ) → i ≢ j
    → (in_section (s.cpus j).place ≡ false) × (is_inside (s.cpus j).place ≡ false)
others_out i s inv h j ne =
    let out : in_section (s.cpus j).place ≡ false = ground (arith, ne, h, inv.one i j) in
    (out, ground (arith, out, inside_section (s.cpus j).place))

spinning-Inv :
    (i : ℕ) (s : Machine)
    → Inv s
    → (s.cpus i).place ≡ outside
    → Inv (with_cpu i (record (push_off (s.cpus i)) { place = spinning }) s)
unfolding push_off
spinning-Inv i s inv e =
    moved i (record (push_off (s.cpus i)) { place = spinning }) s s.locked s.cpu inv
      (λ h. absurd (ground (arith, h))) (λ h. absurd (ground (arith, h))) (λ j _. inv.locked j)
      (sym (ap is_inside e) ∙ inv.owner i) (λ j _. inv.owner j)
      (omega (arith, inv.noff i, ap depth e)) (λ _. refl)

taken-Inv :
    (i : ℕ) (s : Machine)
    → Inv s
    → (s.cpus i).place ≡ spinning
    → s.locked ≡ false
    → Inv (at i taken (record s { locked = true }))
taken-Inv i s inv e free =
    moved i (record (s.cpus i) { place = taken }) s true s.cpu inv
      (λ _ j _. ground (arith, free, inv.locked j)) (λ _. refl) (λ _ _ _. refl)
      (sym (ap is_inside e) ∙ inv.owner i) (λ j _. inv.owner j) (inv.noff i ∙ ap depth e)
      (inv.off i)

inside-Inv :
    (i : ℕ) (s : Machine)
    → Inv s
    → (s.cpus i).place ≡ taken
    → Inv (at i inside (record s { cpu = some i }))
inside-Inv i s inv e =
    let here : in_section (s.cpus i).place ≡ true = ap in_section e in
    let out = others_out i s inv here in
    moved i (record (s.cpus i) { place = inside }) s s.locked (some i) inv (λ _ j ne. (out j ne).0)
      (λ _. inv.locked i here) (λ j _. inv.locked j) (ground arith)
      (λ j ne. ground (arith, ne, (out j ne).1)) (inv.noff i ∙ ap depth e) (inv.off i)

releasing-Inv :
    (i : ℕ) (s : Machine)
    → Inv s
    → (s.cpus i).place ≡ inside
    → Inv (at i releasing (record s { cpu = none }))
releasing-Inv i s inv e =
    let here : in_section (s.cpus i).place ≡ true = ap in_section e in
    let out = others_out i s inv here in
    moved i (record (s.cpus i) { place = releasing }) s s.locked none inv (λ _ j ne. (out j ne).0)
      (λ _. inv.locked i here) (λ j _. inv.locked j) refl (λ j ne. (out j ne).1)
      (inv.noff i ∙ ap depth e) (inv.off i)

outside-Inv :
    (i : ℕ) (c : Cpu) (s : Machine)
    → Inv s
    → (s.cpus i).place ≡ releasing
    → c.place ≡ outside
    → c.noff ≡ 0
    → Inv (record { locked = false; cpu = s.cpu; cpus = update s.cpus i c })
outside-Inv i c s inv e p n =
    let out = others_out i s inv (ap in_section e) in
    moved i c s false s.cpu inv (λ h. absurd (ground (arith, h, ap in_section p)))
      (λ h. absurd (ground (arith, h, ap in_section p)))
      (λ j ne h. absurd (ground (arith, h, (out j ne).0)))
      (ap is_inside p ∙ sym (ap is_inside e) ∙ inv.owner i) (λ j _. inv.owner j)
      (n ∙ sym (ap depth p)) (λ pos. absurd (omega (arith, n, pos)))

step-Goes : (i : ℕ) (p : Place) (s : Machine) → Inv s → (s.cpus i).place ≡ p → Goes (cpu_step i p s)
unfolding cpu_step holding pop_off after_pop
step-Goes i outside s inv e =
    if-all Goes (holding i s) none
      (some (with_cpu i (record (push_off (s.cpus i)) { place = spinning }) s))
      (λ h. absurd (ground (arith, h, inv.owner i, ap is_inside e))) (λ _. spinning-Inv i s inv e)
step-Goes i spinning s inv e =
    if-all Inv s.locked s (at i taken (record s { locked = true })) (λ _. inv)
      (λ free. taken-Inv i s inv e free)
step-Goes i taken s inv e = inside-Inv i s inv e
step-Goes i inside s inv e =
    if-all Goes (holding i s) (some (at i releasing (record s { cpu = none }))) none
      (λ _. releasing-Inv i s inv e)
      (λ h. absurd (ground (arith, h, inv.owner i, ap is_inside e, inv.locked i (ap in_section e))))
step-Goes i releasing s inv e =
    let n : (s.cpus i).noff ≡ 1 = inv.noff i ∙ ap depth e in
    let c = s.cpus i in
    let popped = record c { noff = c.noff - 1; intr = (c.noff - 1 == 0) && c.intena } in
    let s' = record s { locked = false } in
    if-all (λ o. Goes (after_pop i o s')) c.intr none (if ltb c.noff 1 then none else some popped)
      (λ h. absurd (ground (arith, h, n, inv.off i)))
      (λ _.
        if-all (λ o. Goes (after_pop i o s')) (ltb c.noff 1) none (some popped)
          (λ h. absurd (ground (arith, h, n)))
          (λ _. outside-Inv i (record popped { place = outside }) s inv e refl (omega (arith, n))))

Reach-Inv : {s : Machine} → Reach s → Inv s
Reach-Inv (start cpus h) = record {
  one = λ i j hi hj. absurd (ground (arith, hi, ap in_section (h i).1));
  locked = λ i hi. absurd (ground (arith, hi, ap in_section (h i).1));
  owner = λ i. ap is_inside (h i).1;
  noff = λ i. (h i).0 ∙ sym (ap depth (h i).1);
  off = λ i pos. absurd (omega (arith, pos, (h i).0));
}
Reach-Inv (later {s} i r e) = subst Goes e (step-Goes i (s.cpus i).place s (Reach-Inv r) refl)

-- In every reachable state, at most one CPU is between the swap of `acquire` that succeeded and the
-- swap of `release`, and one that is in its critical section is the one that `lk->cpu` names.
pub Reach-exclusive :
    {s : Machine}
    → Reach s
    → ((i j : ℕ) → in_section (s.cpus i).place ≡ true → in_section (s.cpus j).place ≡ true → i ≡ j)
      × ((i : ℕ) → is_inside (s.cpus i).place ≡ holding i s)
unfolding holding
Reach-exclusive {s} r =
    let inv = Reach-Inv r in
    (inv.one, λ i. ground (arith, inv.owner i, inv.locked i, inside_section (s.cpus i).place))

off_within :
    (p : Place) (c : Cpu)
    → c.noff ≡ depth p
    → (0 < c.noff → c.intr ≡ false)
    → ((p ≡ outside) × (c.noff ≡ 0)) ⊎ ((p ≢ outside) × ((c.noff ≡ 1) × (c.intr ≡ false)))
off_within outside c n off = inl (refl, n)
off_within spinning c n off = inr (λ e. absurd (ground (arith, e)), (n, off (omega (arith, n))))
off_within taken c n off = inr (λ e. absurd (ground (arith, e)), (n, off (omega (arith, n))))
off_within inside c n off = inr (λ e. absurd (ground (arith, e)), (n, off (omega (arith, n))))
off_within releasing c n off = inr (λ e. absurd (ground (arith, e)), (n, off (omega (arith, n))))

-- In no reachable state does the next step of any CPU panic. A CPU that is neither in `acquire`, nor
-- in its critical section, nor in `release` has noff 0; one that is in them, also while it spins, has
-- noff 1 and its interrupts off.
pub Reach-no_panic :
    {s : Machine}
    → Reach s
    → (i : ℕ)
    → (cpu_step i (s.cpus i).place s ≢ none)
      × ((((s.cpus i).place ≡ outside) × ((s.cpus i).noff ≡ 0))
          ⊎ (((s.cpus i).place ≢ outside) × (((s.cpus i).noff ≡ 1) × ((s.cpus i).intr ≡ false))))
Reach-no_panic {s} r i =
    let inv = Reach-Inv r in
    (
      λ e. subst Goes e (step-Goes i (s.cpus i).place s inv refl),
      off_within (s.cpus i).place (s.cpus i) (inv.noff i) (inv.off i),
    )
