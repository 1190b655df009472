-- ===== src/Kernel/Proc/Waits.antt =====
-- `wait`, `sleep` and `yield` of kernel/proc.c, and the pids in the table.
use base_system.Base.{
  ℕ, ◌<◌, ◌≡◌, refl, Bool, true, false, ◌&&◌, none, some, [], arith, length, Option-cases, inl, inr,
}
use base_system.Kernel.Proc.{
  Proc, Table, Chan, unused, sleeping, runnable, zombie, is_state, find_from, update, proc_at, wait,
  reaped, asleep, sleep_on, after_sleep, yield, is_proc, at_proc, IsRunning,
}
use base_system.Kernel.Proc.Slots.{found_slot}
use base_system.Kernel.Proc.Pids.{NoBirth, NoBirth-update, Calm, Calm-update, running_slot}

pub sleep_on-Calm : (c : Chan) (cur : ℕ) (t : Table) → IsRunning t cur → Calm t (sleep_on c cur t)
unfolding sleep_on
sleep_on-Calm c cur t r =
    Calm-update t (λ p. record p { chan = some c; state = sleeping }) cur (running_slot t cur r)
      (ground arith) refl

pub after_sleep-Calm : (cur : ℕ) (t : Table) → IsRunning t cur → Calm t (after_sleep cur t)
unfolding after_sleep
after_sleep-Calm cur t r =
    Calm-update t (λ p. record p { chan = none }) cur (running_slot t cur r) refl refl

pub yield-Calm : (cur : ℕ) (t : Table) → IsRunning t cur → Calm t (yield cur t)
unfolding yield
yield-Calm cur t r =
    Calm-update t (λ p. record p { state = runnable }) cur (running_slot t cur r) (ground arith)
      refl

abbrev pub is_zombie_child : ℕ → Proc → Bool
is_zombie_child cur p = is_proc cur p.parent && is_state p.state zombie

abbrev pub reap : Proc → Proc
reap p = record p {
  kstack = none;
  state = unused;
  pid = 0;
  parent = none;
  killed = false;
  name = [];
}

-- A reaped child was a zombie child of the caller, the first in the table.
pub wait-reaped :
    (cur pid : ℕ) (t u : Table)
    → wait cur t ≡ reaped pid u
    → (i : ℕ) × (i < length t.procs)
      × (is_zombie_child cur (proc_at t i) ≡ true)
      × (u ≡ update reap i t)
      × (pid ≡ (proc_at t i).pid)
unfolding wait
wait-reaped cur pid t u e = elim (Option-cases (find_from (is_zombie_child cur) 0 t.procs)) [
  | inr (i, f) ↦
      let r = found_slot (is_zombie_child cur) t i f in
      (i, r.0, r.1, ground (arith, f), ground (arith, f))
  | inl f ↦ absurd (ground (arith, f))
]

pub wait-asleep : (cur : ℕ) (t u : Table) → wait cur t ≡ asleep u → u ≡ sleep_on (at_proc cur) cur t
unfolding wait
wait-asleep cur t u e = ground arith

pub wait-NoBirth : (cur pid : ℕ) (t u : Table) → wait cur t ≡ reaped pid u → NoBirth t u
wait-NoBirth cur pid t u e =
    let (i, h, z, eq, p) = wait-reaped cur pid t u e in
    rw eq (NoBirth-update t reap i h (λ l. absurd (cc)))
