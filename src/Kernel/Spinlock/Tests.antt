-- ===== src/Kernel/Spinlock/Tests.antt =====
-- Two CPUs and a lock, and one CPU with its interrupts on.
use base_system.Base.{◌≡◌, refl, true, false, none, some, ◌==◌, if◌then◌else◌}
use base_system.Kernel.Spinlock.{
  Cpu, outside, spinning, entered, Machine, xchg, holding, to_phase, starts, enters, Reach, here,
  next,
}
use base_system.Kernel.Spinlock.Nesting.{pushes, pops, pops-pushes}
use base_system.Kernel.Spinlock.Exclusion.{IsExclusive, Reach-IsExclusive}

abbrev cpu : Cpu
cpu = record { ncli = 0; intena = false; interrupts = true }

pops-pushes_example :
    (d : Cpu) × (pops 2 (pushes 2 cpu) ≡ some d)
    × (d.ncli ≡ 0)
    × (d.interrupts ≡ true)
    × ((if cpu.ncli == 0 then cpu.intena else d.intena) ≡ false)
pops-pushes_example = pops-pushes 2 cpu refl

abbrev idle : Machine
idle = record { lock = record { locked = false; cpu = none }; phase = λ i. outside }

-- The CPU 0 has begun to acquire the lock, and has it.
abbrev started : Machine
started = record idle { phase = to_phase 0 spinning idle.phase }

abbrev taken : Machine
taken = record {
  lock = record { locked = true; cpu = none };
  phase = to_phase 0 entered started.phase;
}

idle-IsExclusive : IsExclusive idle
idle-IsExclusive = record {
  one = λ i j a b. absurd (cc);
  taken = λ i a. absurd (cc);
  owner = λ i. refl;
}

run : Reach idle taken
unfolding xchg holding
run = next {t = started} (next {t = idle} here (starts 0 refl refl refl)) (enters 0 refl refl refl)

Reach-IsExclusive_example : IsExclusive taken
Reach-IsExclusive_example = Reach-IsExclusive run idle-IsExclusive
