-- ===== src/Kernel/Spinlock.antt =====
-- kernel/spinlock.c: locks, and the nesting of `cli` and `sti`. A pointer to a CPU is its index.
pub mod Nesting
pub mod Exclusion
mod Tests
use base_system.Base.{
  ℕ, zero, suc, ◌+◌, ◌-◌, ◌≡◌, Bool, true, false, not, ◌&&◌, ◌||◌, Option, none, some, ◌==◌,
  if◌then◌else◌,
}

-- The fields `ncli` and `intena` of `struct cpu`, and the flag `FL_IF` of its register.
pub record Cpu : Type 0 where
  pub ncli : ℕ
  pub intena : Bool
  pub interrupts : Bool

unfoldable pub pushcli : Cpu → Cpu
pushcli c = record {
  ncli = c.ncli + 1;
  intena = if c.ncli == 0 then c.interrupts else c.intena;
  interrupts = false;
}

-- `popcli`; `none` is one of its two panics.
unfoldable pub popcli : Cpu → Option Cpu
popcli c =
    if c.interrupts || c.ncli == 0
    then none
    else let n = c.ncli - 1 in
      some (record c { ncli = n; interrupts = if n == 0 && c.intena then true else c.interrupts })

-- `struct spinlock`: `locked` and `cpu`.
pub record Lock : Type 0 where
  pub locked : Bool
  pub cpu : Option ℕ

-- `xchg(&lk->locked, v)`: the value before, and the lock.
unfoldable pub xchg : Bool → Lock → Bool × Lock
xchg v lk = (lk.locked, record lk { locked = v })

abbrev pub is_cpu : ℕ → Option ℕ → Bool
is_cpu i none = false
is_cpu i (some j) = i == j

unfoldable pub holding : ℕ → Lock → Bool
holding i lk = lk.locked && is_cpu i lk.cpu

-- Where a CPU is in `acquire` and `release`: not in them and without the lock; spinning; after the
-- `xchg` of `acquire`; with the lock; before the `xchg` of `release`.
pub data Phase : Type 0 where
  outside spinning entered inside leaving : Phase

pub record Machine : Type 0 where
  pub lock : Lock
  pub phase : ℕ → Phase

abbrev pub to_phase : ℕ → Phase → (ℕ → Phase) → ℕ → Phase
to_phase i p phases j = if j == i then p else phases j

-- A CPU executes the next access to the lock.
pub data Step (s t : Machine) : Type 0 where
  starts :
      (i : ℕ)
      → s.phase i ≡ outside
      → holding i s.lock ≡ false
      → t ≡ record s { phase = to_phase i spinning s.phase }
      → Step s t
  spins :
      (i : ℕ)
      → s.phase i ≡ spinning
      → (xchg true s.lock).0 ≡ true
      → t ≡ record s { lock = (xchg true s.lock).1 }
      → Step s t
  enters :
      (i : ℕ)
      → s.phase i ≡ spinning
      → (xchg true s.lock).0 ≡ false
      → t ≡ record { lock = (xchg true s.lock).1; phase = to_phase i entered s.phase }
      → Step s t
  records :
      (i : ℕ)
      → s.phase i ≡ entered
      → t ≡ record { lock = record s.lock { cpu = some i }; phase = to_phase i inside s.phase }
      → Step s t
  clears :
      (i : ℕ)
      → s.phase i ≡ inside
      → holding i s.lock ≡ true
      → t ≡ record { lock = record s.lock { cpu = none }; phase = to_phase i leaving s.phase }
      → Step s t
  unlocks :
      (i : ℕ)
      → s.phase i ≡ leaving
      → t ≡ record { lock = (xchg false s.lock).1; phase = to_phase i outside s.phase }
      → Step s t

pub data Reach (s : Machine) : Machine → Type 0 where
  here : Reach s s
  next : {t u : Machine} → Reach s t → Step t u → Reach s u
