-- ===== src/Kernel/Spinlock.antt =====
-- kernel/spinlock.c: one lock that any number of CPUs acquire and release, one access to shared state
-- at a time. The fences are left out: steps are taken one after the other.
pub mod Exclusion
mod Tests
use os_network_concurrency_s.Common.{
  ℕ, ◌+◌, ◌-◌, ◌≡◌, Option, none, some, ltb, ◌==◌, if◌then◌else◌, update, Bool, true, false, ◌&&◌,
}

-- Where a CPU stands: before `acquire`, at the atomic swap, before `lk->cpu = mycpu()`, in the
-- critical section, and after `lk->cpu = 0` in `release`.
pub data Place : Type 0 where
  outside : Place
  spinning : Place
  taken : Place
  inside : Place
  releasing : Place

-- `struct cpu`, with whether interrupts are on.
pub record Cpu : Type 0 where
  pub noff : ℕ
  pub intena : Bool
  pub intr : Bool
  pub place : Place

-- `struct spinlock`: `cpu` is `none` for 0.
pub record Machine : Type 0 where
  pub locked : Bool
  pub cpu : Option ℕ
  pub cpus : ℕ → Cpu

unfoldable pub push_off : Cpu → Cpu
push_off c = record c {
  intr = false;
  intena = if c.noff == 0 then c.intr else c.intena;
  noff = c.noff + 1;
}

-- `none` is a panic.
unfoldable pub pop_off : Cpu → Option Cpu
pop_off c =
    if c.intr
    then none
    else if ltb c.noff 1
    then none
    else some (record c { noff = c.noff - 1; intr = (c.noff - 1 == 0) && c.intena })

abbrev pub is_cpu : Option ℕ → ℕ → Bool
is_cpu none i = false
is_cpu (some j) i = j == i

unfoldable pub holding : ℕ → Machine → Bool
holding i s = s.locked && is_cpu s.cpu i

abbrev pub with_cpu : ℕ → Cpu → Machine → Machine
with_cpu i c s = record s { cpus = update s.cpus i c }

abbrev pub at : ℕ → Place → Machine → Machine
at i p s = with_cpu i (record (s.cpus i) { place = p }) s

-- The end of `release`, after `pop_off`.
unfoldable pub after_pop : ℕ → Option Cpu → Machine → Option Machine
after_pop i none s = none
after_pop i (some c) s = some (with_cpu i (record c { place = outside }) s)

-- The next step of CPU `i`, which is at the given place: of `acquire` up to `taken`, then of
-- `release`. `none` is a panic.
unfoldable pub cpu_step : ℕ → Place → Machine → Option Machine
cpu_step i outside s =
    let s' = with_cpu i (record (push_off (s.cpus i)) { place = spinning }) s in
    if holding i s' then none else some s'
cpu_step i spinning s = some (if s.locked then s else at i taken (record s { locked = true }))
cpu_step i taken s = some (at i inside (record s { cpu = some i }))
cpu_step i inside s = if holding i s then some (at i releasing (record s { cpu = none })) else none
cpu_step i releasing s = after_pop i (pop_off (s.cpus i)) (record s { locked = false })

-- `initlock`, on CPUs that hold no lock.
pub data Reach : Machine → Type 0 where
  start :
      (cpus : ℕ → Cpu)
      → ((i : ℕ) → ((cpus i).noff ≡ 0) × ((cpus i).place ≡ outside))
      → Reach (record { locked = false; cpu = none; cpus = cpus })
  later : {s t : Machine} (i : ℕ) → Reach s → cpu_step i (s.cpus i).place s ≡ some t → Reach t
