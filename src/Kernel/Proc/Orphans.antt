-- ===== src/Kernel/Proc/Orphans.antt =====
-- Parents and children under all calls of kernel/proc.c.
use native.Mathlib.Decide.{ℕ_discrete}
use base_system.Base.{
  ℕ, ◌<◌, ◌≡◌, refl, sym, ◌∙◌, Option, none, some, arith, length, Option-cases, inl, inr,
}
use base_system.Kernel.Proc.{
  Proc, Table, Chan, unused, sleeping, runnable, zombie, is_state, assign, find_from, update,
  proc_at, wakeup1, kill, schedule, at_proc, IsRunning, allocproc, fork, sleep_on, after_sleep,
  yield, Step, forks, exits, reaps, waits, sleeps, resumes, yields, wakes, kills, schedules, Reach,
  here, next,
}
use base_system.Kernel.Proc.Slots.{get_or-assign, length-assign}
use base_system.Kernel.Proc.Pids.{kind, running_slot}
use base_system.Kernel.Proc.Births.{
  Born, allocproc-Born, fork-cases, child, claimed, with_pid, abort, unused_slot,
}
use base_system.Kernel.Proc.Waits.{reap, wait-reaped, wait-asleep}
use base_system.Kernel.Proc.Family.{
  HasLiveParents, SameFamily, SameFamily-live, SameFamily-refl, SameFamily-update,
  wakeup1-SameFamily, kill-SameFamily, schedule-SameFamily,
}
use base_system.Kernel.Proc.Exits.{exit-live}

sleep_on-SameFamily :
    (c : Chan) (cur : ℕ) (t : Table) → IsRunning t cur → SameFamily t (sleep_on c cur t)
unfolding sleep_on
sleep_on-SameFamily c cur t r =
    SameFamily-update t (λ p. record p { chan = some c; state = sleeping }) cur
      (running_slot t cur r) (ground arith) refl

after_sleep-SameFamily : (cur : ℕ) (t : Table) → IsRunning t cur → SameFamily t (after_sleep cur t)
unfolding after_sleep
after_sleep-SameFamily cur t r =
    SameFamily-update t (λ p. record p { chan = none }) cur (running_slot t cur r) refl refl

yield-SameFamily : (cur : ℕ) (t : Table) → IsRunning t cur → SameFamily t (yield cur t)
unfolding yield
yield-SameFamily cur t r =
    SameFamily-update t (λ p. record p { state = runnable }) cur (running_slot t cur r)
      (ground arith) refl

reap-live :
    (i : ℕ) (t : Table)
    → i < length t.procs
    → (proc_at t i).state ≡ zombie
    → HasLiveParents t
    → HasLiveParents (update reap i t)
reap-live i t h z l =
    let at = λ (j : ℕ). get_or-assign reap i j t.procs h in
    record {
      parents = λ k j p. elim (ℕ_discrete i k) [
        | yes e ↦ absurd (ground (arith, at k, p, e))
        | no ne ↦
            let q : (proc_at t k).parent ≡ some j = ground (arith, at k) in
            ground (arith, at j, l.parents k j q, z)
      ];
      init = ground (arith, at t.initproc, l.init, z);
      child = λ k live n. elim (ℕ_discrete i k) [
        | yes e ↦ absurd (live (ground (arith, at k, e)))
        | no ne ↦
            let (j, p) = l.child k (λ q. live (ground (arith, at k, q))) n in
            (j, ground (arith, at k, p))
      ];
    }

lost_family :
    (i : ℕ) (t : Table)
    → i < length t.procs
    → (proc_at t i).state ≡ unused
    → SameFamily t (update (λ p. record p { state = unused }) i (claimed i t))
lost_family i t h empty =
    let g : Proc → Proc = λ p. record p { state = unused } in
    let ps = assign (with_pid t.nextpid) i t.procs in
    let first = λ (j : ℕ). get_or-assign (with_pid t.nextpid) i j t.procs h in
    let second = λ (j : ℕ).
      get_or-assign g i j ps (omega (arith, length-assign (with_pid t.nextpid) i t.procs)) in
    record {
      kinds = λ j. ground (arith, first j, second j);
      parent = λ j. ground (arith, first j, second j);
      initproc = refl;
    }

allocproc-none_family :
    (page : Option ℕ) (t : Table) → (allocproc page t).0 ≡ none → SameFamily t (allocproc page t).1
unfolding allocproc
allocproc-none_family page t e =
    elim (Option-cases (find_from (λ p. is_state p.state unused) 0 t.procs)) [
      | inl f ↦ rw (f, allocproc) (SameFamily-refl t)
      | inr (k, f) ↦ elim (Option-cases page) [
        | inr (a, g) ↦ absurd (ground (arith, f, g))
        | inl g ↦
            let r = unused_slot t k f in
            rw (f, allocproc) (rw (g, allocproc) (lost_family k t r.0 r.1))
      ]
    ]

Born-abort : (t : Table) (i : ℕ) (u : Table) → Born t i u → SameFamily t (update abort i u)
Born-abort t i u b =
    let at = λ (j : ℕ). get_or-assign abort i j u.procs (omega (arith, b.slot, b.length_lem)) in
    record {
      kinds = λ j. elim (ℕ_discrete j i) [
        | yes e ↦ rw e (ground (arith, at i, b.empty))
        | no ne ↦ ground (arith, at j, b.others j ne)
      ];
      parent = λ j. elim (ℕ_discrete j i) [
        | yes e ↦ rw e (ground (arith, at i, b.parent))
        | no ne ↦ ground (arith, at j, b.others j ne)
      ];
      initproc = b.initproc;
    }

-- A new process that becomes runnable as the child of a running one.
Born-child :
    (t : Table) (i : ℕ) (u : Table) (g : Proc → Proc) (cur : ℕ)
    → Born t i u
    → IsRunning t cur
    → ((p : Proc) → (g p).parent ≡ some cur)
    → ((p : Proc) → (g p).state ≡ runnable)
    → HasLiveParents t
    → HasLiveParents (update g i u)
Born-child t i u g cur b r par st h =
    let at = λ (j : ℕ). get_or-assign g i j u.procs (omega (arith, b.slot, b.length_lem)) in
    let v = update g i u in
    let alive : (j : ℕ) → kind (proc_at t j).state ≡ 2 → kind (proc_at v j).state ≡ 2 = λ j k.
      elim (ℕ_discrete j i) [
        | yes e ↦ rw e (ground (arith, at i, st (proc_at u i)))
        | no ne ↦ ground (arith, at j, b.others j ne)
      ] in
    record {
      parents = λ j k e. elim (ℕ_discrete j i) [
        | yes same ↦
            let e' : some cur ≡ some k = ground (arith, at i, par (proc_at u i), rw same at e) in
            alive k (ground (arith, e', r))
        | no ne ↦ alive k (h.parents j k (ground (arith, at j, b.others j ne)))
      ];
      init = rw (b.initproc) (alive t.initproc h.init);
      child = λ j live n. elim (ℕ_discrete j i) [
        | yes e ↦ (cur, rw e (ground (arith, at i, par (proc_at u i))))
        | no ne ↦
            let (k, p) =
              h.child j (λ q. live (ground (arith, at j, b.others j ne, q)))
                (λ q. n (q ∙ sym b.initproc)) in
            (k, ground (arith, at j, b.others j ne, p))
      ];
    }

-- The child of `cur`, once it has its slot.
fork-live :
    (cur : ℕ) (page copied : Option ℕ) (t : Table)
    → IsRunning t cur
    → HasLiveParents t
    → HasLiveParents (fork cur page copied t).1
fork-live cur page copied t r h =
    let u = (allocproc page t).1 in
    elim (fork-cases cur page copied t) [
      | inl (e, f) ↦ rw f (SameFamily-live t u (allocproc-none_family page t e) h)
      | inr (i, e, ways) ↦
          let b = allocproc-Born page t i e in
          elim ways [
            | inl f ↦ rw f (SameFamily-live t (update abort i u) (Born-abort t i u b) h)
            | inr (dir, f) ↦
                rw f (
                  Born-child t i u (child cur dir (proc_at t cur)) cur b r (λ p. refl) (λ p. refl)
                    h)
          ]
    ]

Step-live : (t u : Table) → Step t u → HasLiveParents t → HasLiveParents u
Step-live t u (forks cur page copied r e) h = rw e (fork-live cur page copied t r h)
Step-live t u (exits cur r e) h = exit-live cur t u r e h
Step-live t u (reaps cur pid r e) h =
    let (i, l, z, eq, p) = wait-reaped cur pid t u e in rw eq (reap-live i t l (ground arith) h)
Step-live t u (waits cur r e) h =
    rw (wait-asleep cur t u e) (
      SameFamily-live t (sleep_on (at_proc cur) cur t) (sleep_on-SameFamily (at_proc cur) cur t r)
        h)
Step-live t u (sleeps cur c r e) h =
    rw e (SameFamily-live t (sleep_on c cur t) (sleep_on-SameFamily c cur t r) h)
Step-live t u (resumes cur r e) h =
    rw e (SameFamily-live t (after_sleep cur t) (after_sleep-SameFamily cur t r) h)
Step-live t u (yields cur r e) h =
    rw e (SameFamily-live t (yield cur t) (yield-SameFamily cur t r) h)
Step-live t u (wakes c e) h = rw e (SameFamily-live t (wakeup1 c t) (wakeup1-SameFamily c t) h)
Step-live t u (kills pid e) h = rw e (SameFamily-live t (kill pid t).1 (kill-SameFamily pid t) h)
Step-live t u (schedules i e) h =
    rw e (SameFamily-live t (schedule i t).1 (schedule-SameFamily i t) h)

-- Whatever calls are made from a table in which init is alive, each other process has a parent, and each
-- parent is alive, that stays so: a zombie other than init always has a parent that is alive and can
-- reap it.
pub Reach-live : {t u : Table} → Reach t u → HasLiveParents t → HasLiveParents u
Reach-live here h = h
Reach-live (next {u} {v} r st) h = Step-live u v st (Reach-live r h)
