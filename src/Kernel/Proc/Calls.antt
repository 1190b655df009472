-- ===== src/Kernel/Proc/Calls.antt =====
-- Single calls of kernel/proc.c: `wakeup`, `exit` followed by `wait`, `fork`.
use base_system.Base.{
  ℕ, ◌<◌, ◌≡◌, refl, ◌≢◌, Bool, true, false, ◌&&◌, some, arith, if◌then◌else◌, length, Bool-cases,
  Option-cases, inl, inr,
}
use base_system.Kernel.Proc.{
  Proc, Table, Chan, unused, sleeping, runnable, is_state, find_from, update, proc_at, wakeup1,
  exit, wait, reaped, same_chan, IsRunning, allocproc, fork,
}
use base_system.Kernel.Proc.Slots.{get_or-assign, get_or-wake, get_or-beyond, find_from-none}
use base_system.Kernel.Proc.Births.{allocproc-Born, child}
use base_system.Kernel.Proc.Waits.{reap, is_zombie_child, wait-reaped}
use base_system.Kernel.Proc.Exits.{exit-Exited}

abbrev pub sleeps_on : Chan → Proc → Bool
sleeps_on c p = is_state p.state sleeping && same_chan c p.chan

-- After `wakeup` nobody sleeps on the channel: who did is runnable and otherwise unchanged, and every
-- other process is unchanged.
pub wakeup1_lem :
    (c : Chan) (t : Table) (j : ℕ)
    → (sleeps_on c (proc_at (wakeup1 c t) j) ≡ false)
      × (proc_at (wakeup1 c t) j ≡ (
          if sleeps_on c (proc_at t j)
          then record (proc_at t j) { state = runnable }
          else proc_at t j))
unfolding wakeup1
wakeup1_lem c t j = elim (Bool-cases (sleeps_on c (proc_at t j))) [
  | inl e ↦ (ground (arith, get_or-wake c j t.procs, e), ground (arith, get_or-wake c j t.procs, e))
  | inr e ↦ (ground (arith, get_or-wake c j t.procs, e), ground (arith, get_or-wake c j t.procs, e))
]

-- With a zombie child in the table `wait` reaps a child.
wait-zombie :
    (cur i : ℕ) (t : Table)
    → i < length t.procs
    → is_zombie_child cur (proc_at t i) ≡ true
    → (pid : ℕ) × (u : Table) × (wait cur t ≡ reaped pid u)
unfolding wait
wait-zombie cur i t h z = elim (Option-cases (find_from (is_zombie_child cur) 0 t.procs)) [
  | inr (k, f) ↦ ((proc_at t k).pid, update reap k t, rw (f, wait) refl)
  | inl f ↦ let none_there = find_from-none (is_zombie_child cur) 0 i t.procs f h in absurd (cc)
]

-- After a process whose parent is another process exits, a call of `wait` by its parent reaps a zombie
-- child of that parent and returns its pid: it neither fails nor sleeps.
pub wait_after_exit :
    (cur q : ℕ) (t u : Table)
    → IsRunning t cur
    → exit cur t ≡ some u
    → (proc_at t cur).parent ≡ some q
    → q ≢ cur
    → (pid : ℕ) × (v : Table) × (i : ℕ) × (wait q u ≡ reaped pid v)
      × (is_zombie_child q (proc_at u i) ≡ true)
      × (pid ≡ (proc_at u i).pid)
      × ((proc_at v i).state ≡ unused)
wait_after_exit cur q t u r e par ne =
    let x = exit-Exited cur t u r e in
    let mine : is_zombie_child q (proc_at u cur) ≡ true =
      ground (arith, x.parent cur, x.state, par) in
    let slot : cur < length u.procs = ground (arith, get_or-beyond u.procs cur, x.state) in
    let (pid, v, w) = wait-zombie q cur u slot mine in
    let (i, h, z, eq, p) = wait-reaped q pid u v w in
    (pid, v, i, w, z, p, rw eq (ground (arith, get_or-assign reap i i u.procs h)))

-- The child of a `fork` starts with the `killed` mark and the user id that its slot in the table had
-- before the call, whatever its parent's are.
pub fork_leftovers :
    (cur page dir i : ℕ) (t : Table)
    → (allocproc (some page) t).0 ≡ some i
    → let u = (fork cur (some page) (some dir) t).1 in
      ((proc_at u i).killed ≡ (proc_at t i).killed)
      × ((proc_at u i).uid ≡ (proc_at t i).uid)
      × ((proc_at u i).parent ≡ some cur)
      × ((proc_at u i).pid ≡ t.nextpid)
unfolding fork
fork_leftovers cur page dir i t e =
    let b = allocproc-Born (some page) t i e in
    let u = (allocproc (some page) t).1 in
    let g = child cur dir (proc_at t cur) in
    let at = get_or-assign g i i u.procs (omega (arith, b.slot, b.length_lem)) in
    rw (e, fork) (ground (arith, at, b.killed, b.uid, b.pid))
