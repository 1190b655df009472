-- ===== src/Kernel/Proc/Exits.antt =====
-- What `exit` of kernel/proc.c does to the family of processes.
use native.Mathlib.Decide.{ℕ_discrete}
use base_system.Base.{
  ℕ, ◌<◌, ◌≡◌, refl, ◌∙◌, ◌≢◌, Option, none, some, map, arith, if◌then◌else◌, length, sym,
  Bool-cases, inl, inr,
}
use base_system.Kernel.Proc.{
  Proc, Table, zombie, update, proc_at, wakeup1, abandon, exit, is_proc, at_proc, IsRunning,
}
use base_system.Kernel.Proc.Slots.{get_or-assign, length-assign, get_or-beyond}
use base_system.Kernel.Proc.Pids.{
  kind, running_slot, abandon-Calm, length-abandon, wake_parent-Calm,
}
use base_system.Kernel.Proc.Family.{
  HasLiveParents, SameFamily, SameFamily-trans, SameFamily-refl, SameFamily-update,
  wakeup1-SameFamily, parent-abandon,
}

wake_parent-SameFamily :
    (o : Option ℕ) (t : Table)
    → let u : Table = elim o [ none ↦ t | some q ↦ wakeup1 (at_proc q) t ] in SameFamily t u
wake_parent-SameFamily none t = SameFamily-refl t
wake_parent-SameFamily (some q) t = wakeup1-SameFamily (at_proc q) t

-- What a successful `exit` of `cur` did.
pub record Exited (cur : ℕ) (t u : Table) : Type 0 where
  pub parent :
      (i : ℕ)
      → (proc_at u i).parent
        ≡ (if is_proc cur (proc_at t i).parent then some t.initproc else (proc_at t i).parent)
  pub state : (proc_at u cur).state ≡ zombie
  pub others : (i : ℕ) → i ≢ cur → kind (proc_at u i).state ≡ kind (proc_at t i).state
  pub initproc : u.initproc ≡ t.initproc
  pub not_init : cur ≢ t.initproc

-- A process that may exit becomes a zombie, its children become init's, and nobody else changes
-- parent or comes or goes; init itself never exits.
pub exit-Exited : (cur : ℕ) (t u : Table) → IsRunning t cur → exit cur t ≡ some u → Exited cur t u
unfolding exit
exit-Exited cur t u r e =
    let f : Proc → Proc = λ p. record p { ofile = map (λ g. none) p.ofile; cwd = none } in
    let slot = running_slot t cur r in
    let t1 = update f cur t in
    let w = wake_parent-Calm (proc_at t cur).parent t1 in
    let t2 : Table = elim (proc_at t cur).parent [ none ↦ t1 | some q ↦ wakeup1 (at_proc q) t1 ] in
    let t3 = abandon cur (length t2.procs) 0 t2 in
    let g : Proc → Proc = λ p. record p { state = zombie } in
    let s2 =
      SameFamily-trans t t1 t2 (SameFamily-update t f cur slot refl refl)
        (wake_parent-SameFamily (proc_at t cur).parent t1) in
    let a = abandon-Calm cur (length t2.procs) 0 t2 (omega arith) in
    let par = λ (j : ℕ). parent-abandon cur (length t2.procs) 0 j t2 (omega arith) in
    let len : length t3.procs ≡ length t.procs =
      length-abandon cur (length t2.procs) 0 t2 ∙ (w.1 ∙ length-assign f cur t.procs) in
    let slot3 : cur < length t3.procs = omega (arith, len, slot) in
    let last = λ (j : ℕ). get_or-assign g cur j t3.procs slot3 in
    let same : update g cur t3 ≡ u = ground arith in
    rw (← same) (record {
      parent = λ i.
          ground (arith, last i, (par i).0, s2.parent i, s2.initproc, get_or-beyond t2.procs i);
      state = ground (arith, last cur);
      others = λ i ne. ground (arith, last i, a.kinds i, s2.kinds i);
      initproc = (par 0).1 ∙ s2.initproc;
      not_init = λ h. ground (arith, e, h);
    })

pub exit-live :
    (cur : ℕ) (t u : Table)
    → IsRunning t cur
    → exit cur t ≡ some u
    → HasLiveParents t
    → HasLiveParents u
exit-live cur t u r e h =
    let x = exit-Exited cur t u r e in
    record {
      parents = λ i j p. elim (ℕ_discrete j cur) [
        | yes same ↦ absurd (ground (arith, x.parent i, x.not_init, p, same))
        | no ne ↦ x.others j ne ∙ elim (ℕ_discrete j t.initproc) [
          | yes same ↦ rw same h.init
          | no other ↦ h.parents i j (ground (arith, x.parent i, p))
        ]
      ];
      init = rw (x.initproc) (x.others t.initproc (λ z. x.not_init (sym z)) ∙ h.init);
      child = λ i live n.
          let before : kind (proc_at t i).state ≢ 0 = λ k. elim (ℕ_discrete i cur) [
            | yes same ↦ ground (arith, same, r, k)
            | no ne ↦ live (x.others i ne ∙ k)
          ] in
          let (j, p) = h.child i before (λ k. n (k ∙ sym x.initproc)) in
          elim (Bool-cases (is_proc cur (proc_at t i).parent)) [
            | inl a ↦ (t.initproc, ground (arith, x.parent i, a))
            | inr a ↦ (j, ground (arith, x.parent i, a, p))
          ];
    }
