-- ===== src/Kernel/Spinlock/Tests.antt =====
-- kernel/spinlock.c: a CPU whose interrupts are on takes the lock.
use os_network_concurrency_s.Common.{◌⊎◌, ℕ, ◌≡◌, ◌≢◌, none, true, false, refl}
use os_network_concurrency_s.Kernel.Spinlock.{
  outside, Cpu, Machine, push_off, holding, with_cpu, cpu_step, Reach, start, later, spinning,
  taken, at,
}
use os_network_concurrency_s.Kernel.Spinlock.Exclusion.{
  in_section, is_inside, Reach-exclusive, Reach-no_panic,
}

abbrev idle : Cpu
idle = record { noff = 0; intena = false; intr = true; place = outside }

abbrev unlocked : Machine
unlocked = record { locked = false; cpu = none; cpus = λ _. idle }

abbrev entering : Machine
entering = with_cpu 1 (record { noff = 1; intena = true; intr = false; place = spinning }) unlocked

abbrev locking : Machine
locking = at 1 taken (record entering { locked = true })

locking-Reach : Reach locking
unfolding cpu_step push_off holding
locking-Reach =
    later {s = entering} 1 (later {s = unlocked} 1 (start (λ _. idle) (λ _. (refl, refl))) refl)
      refl

Reach-exclusive_example :
    ((i j : ℕ)
      → in_section (locking.cpus i).place ≡ true
      → in_section (locking.cpus j).place ≡ true
      → i ≡ j)
    × ((i : ℕ) → is_inside (locking.cpus i).place ≡ holding i locking)
Reach-exclusive_example = Reach-exclusive locking-Reach

Reach-no_panic_example :
    (cpu_step 1 (locking.cpus 1).place locking ≢ none)
    × ((((locking.cpus 1).place ≡ outside) × ((locking.cpus 1).noff ≡ 0))
        ⊎ (((locking.cpus 1).place ≢ outside)
            × (((locking.cpus 1).noff ≡ 1) × ((locking.cpus 1).intr ≡ false))))
Reach-no_panic_example = Reach-no_panic locking-Reach 1
