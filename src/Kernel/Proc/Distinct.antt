-- ===== src/Kernel/Proc/Distinct.antt =====
-- Pids under all calls of kernel/proc.c.
use base_system.Base.{ℕ, ◌+◌, ◌^◌, ◌≤◌, ◌<◌, refl, Option, arith, length, inl, inr}
use base_system.Kernel.Proc.{
  Table, update, proc_at, sleep_on, after_sleep, yield, wakeup1, kill, schedule, fork, allocproc,
  at_proc, Step, forks, exits, reaps, waits, sleeps, resumes, yields, wakes, kills, schedules,
  Reach, here, next, new_forks, fork_count,
}
use base_system.Kernel.Proc.Pids.{
  HasDistinctPids, NoBirth, NoBirth-distinct, NoBirth-update, Calm-NoBirth, wakeup1-Calm, kill-Calm,
  schedule-Calm, exit-NoBirth,
}
use base_system.Kernel.Proc.Waits.{
  sleep_on-Calm, after_sleep-Calm, yield-Calm, wait-asleep, wait-NoBirth,
}
use base_system.Kernel.Proc.Births.{
  HasPid, allocproc-Born, allocproc-none, Born-distinct, child, abort, fork-cases,
}

fork-distinct :
    (cur : ℕ) (page copied : Option ℕ) (t : Table)
    → HasPid t
    → HasDistinctPids t
    → let v = (fork cur page copied t).1 in HasDistinctPids v × (v.nextpid ≤ t.nextpid + 1)
fork-distinct cur page copied t room h =
    let u = (allocproc page t).1 in
    elim (fork-cases cur page copied t) [
      | inl (e, f) ↦ rw f (allocproc-none page t e room h)
      | inr (i, e, r) ↦
          let b = allocproc-Born page t i e in
          let hu = Born-distinct t i u b room h in
          let next_one : u.nextpid ≤ t.nextpid + 1 = omega (arith, b.nextpid) in
          let slot : i < length u.procs = omega (arith, b.slot, b.length_lem) in
          elim r [
            | inl f ↦ rw f (
              NoBirth-distinct u (update abort i u)
                  (NoBirth-update u abort i slot (λ l. absurd (cc))) hu,
              next_one,
            )
            | inr (dir, f) ↦
                let g = child cur dir (proc_at t cur) in
                rw f (
                  NoBirth-distinct u (update g i u)
                      (NoBirth-update u g i slot (λ l. (ground (arith, b.state), refl))) hu,
                  next_one,
                )
          ]
    ]

after_NoBirth :
    (t u : Table)
    → NoBirth t u
    → HasDistinctPids t
    → HasDistinctPids u × (u.nextpid ≤ t.nextpid + 0)
after_NoBirth t u n h = (NoBirth-distinct t u n h, omega (arith, n.nextpid))

Step-distinct :
    (t u : Table) (st : Step t u)
    → t.nextpid + new_forks st < 2 ^ 31
    → HasDistinctPids t
    → HasDistinctPids u × (u.nextpid ≤ t.nextpid + new_forks st)
Step-distinct t u (forks cur page copied r e) l h = rw e (fork-distinct cur page copied t l h)
Step-distinct t u (exits cur r e) l h = after_NoBirth t u (exit-NoBirth cur t u r e) h
Step-distinct t u (reaps cur pid r e) l h = after_NoBirth t u (wait-NoBirth cur pid t u e) h
Step-distinct t u (waits cur r e) l h = rw (wait-asleep cur t u e) (
    after_NoBirth t (sleep_on (at_proc cur) cur t)
      (Calm-NoBirth t (sleep_on (at_proc cur) cur t) (sleep_on-Calm (at_proc cur) cur t r)) h)
Step-distinct t u (sleeps cur c r e) l h = rw e (
    after_NoBirth t (sleep_on c cur t) (Calm-NoBirth t (sleep_on c cur t) (sleep_on-Calm c cur t r))
      h)
Step-distinct t u (resumes cur r e) l h = rw e (
    after_NoBirth t (after_sleep cur t)
      (Calm-NoBirth t (after_sleep cur t) (after_sleep-Calm cur t r)) h)
Step-distinct t u (yields cur r e) l h =
    rw e (after_NoBirth t (yield cur t) (Calm-NoBirth t (yield cur t) (yield-Calm cur t r)) h)
Step-distinct t u (wakes c e) l h =
    rw e (after_NoBirth t (wakeup1 c t) (Calm-NoBirth t (wakeup1 c t) (wakeup1-Calm c t)) h)
Step-distinct t u (kills pid e) l h =
    rw e (after_NoBirth t (kill pid t).1 (Calm-NoBirth t (kill pid t).1 (kill-Calm pid t)) h)
Step-distinct t u (schedules i e) l h =
    rw e (after_NoBirth t (schedule i t).1 (Calm-NoBirth t (schedule i t).1 (schedule-Calm i t)) h)

Reach-pids :
    {t u : Table} (r : Reach t u)
    → t.nextpid + fork_count r < 2 ^ 31
    → HasDistinctPids t
    → HasDistinctPids u × (u.nextpid ≤ t.nextpid + fork_count r)
Reach-pids here l h = (h, omega arith)
Reach-pids (next {u} {v} r st) l h =
    let (hu, n) = Reach-pids r (omega (arith, l)) h in
    let (hv, m) = Step-distinct u v st (omega (arith, l, n)) hu in (hv, omega (arith, n, m))

-- Whatever calls are made from a table whose live processes have distinct pids below `nextpid`, as long
-- as `nextpid` plus the number of calls of `fork` stays below 2^31, so that the `int` does not overflow:
-- no two live processes share a pid, and every live pid stays below `nextpid`.
pub Reach-distinct :
    {t u : Table} (r : Reach t u)
    → t.nextpid + fork_count r < 2 ^ 31
    → HasDistinctPids t
    → HasDistinctPids u
Reach-distinct r l h = (Reach-pids r l h).0
