-- ===== src/Kernel/Proc/Family.antt =====
-- Who is whose parent in the table of kernel/proc.c, and who is alive.
use native.Mathlib.Decide.{ℕ_discrete}
use base_system.Base.{
  ℕ, zero, suc, ◌+◌, ◌≤◌, ◌<◌, ◌≡◌, refl, ◌∙◌, true, ◌&&◌, some, arith, ◌==◌, leb, ltb, ◌≢◌,
  if◌then◌else◌, length, Option-cases, inl, inr, drop, sym,
}
use base_system.Kernel.Proc.{
  Proc, Table, Chan, sleeping, runnable, running, is_state, find_from, assign, update, proc_at,
  wakeup1, kill, adopt, abandon, schedule, is_proc, at_proc,
}
use base_system.Kernel.Proc.Slots.{get_or-assign, get_or-wake, found_slot, found_above}
use base_system.Kernel.Proc.Pids.{kind, length-adopt}

-- Every parent is alive, that is neither a zombie nor gone, and so is init; and every process, a zombie
-- too, has a parent, unless it is init.
pub record HasLiveParents (t : Table) : Type 0 where
  pub parents : (i j : ℕ) → (proc_at t i).parent ≡ some j → kind (proc_at t j).state ≡ 2
  pub init : kind (proc_at t t.initproc).state ≡ 2
  pub child :
      (i : ℕ)
      → kind (proc_at t i).state ≢ 0
      → i ≢ t.initproc
      → (j : ℕ) × ((proc_at t i).parent ≡ some j)

-- A call that changes no parent, and no slot's kind.
pub record SameFamily (t u : Table) : Type 0 where
  pub kinds : (i : ℕ) → kind (proc_at u i).state ≡ kind (proc_at t i).state
  pub parent : (i : ℕ) → (proc_at u i).parent ≡ (proc_at t i).parent
  pub initproc : u.initproc ≡ t.initproc

pub SameFamily-live : (t u : Table) → SameFamily t u → HasLiveParents t → HasLiveParents u
SameFamily-live t u s h = record {
  parents = λ i j e. s.kinds j ∙ h.parents i j (sym (s.parent i) ∙ e);
  init = rw s.initproc (s.kinds t.initproc ∙ h.init);
  child = λ i l n.
      let (j, e) = h.child i (λ k. l (s.kinds i ∙ k)) (λ k. n (k ∙ sym s.initproc)) in
      (j, s.parent i ∙ e);
}

pub SameFamily-trans : (t u v : Table) → SameFamily t u → SameFamily u v → SameFamily t v
SameFamily-trans t u v a b = record {
  kinds = λ i. b.kinds i ∙ a.kinds i;
  parent = λ i. b.parent i ∙ a.parent i;
  initproc = b.initproc ∙ a.initproc;
}

pub SameFamily-refl : (t : Table) → SameFamily t t
SameFamily-refl t = record { kinds = λ i. refl; parent = λ i. refl; initproc = refl }

pub SameFamily-update :
    (t : Table) (f : Proc → Proc) (i : ℕ)
    → i < length t.procs
    → kind (f (proc_at t i)).state ≡ kind (proc_at t i).state
    → (f (proc_at t i)).parent ≡ (proc_at t i).parent
    → SameFamily t (update f i t)
SameFamily-update t f i h k q = record {
  kinds = λ j. elim (ℕ_discrete i j) [
    | yes e ↦ ground (arith, get_or-assign f i j t.procs h, e)
    | no ne ↦ ground (arith, get_or-assign f i j t.procs h)
  ];
  parent = λ j. elim (ℕ_discrete i j) [
    | yes e ↦ ground (arith, get_or-assign f i j t.procs h, e)
    | no ne ↦ ground (arith, get_or-assign f i j t.procs h)
  ];
  initproc = refl;
}

pub wakeup1-SameFamily : (c : Chan) (t : Table) → SameFamily t (wakeup1 c t)
unfolding wakeup1
wakeup1-SameFamily c t = record {
  kinds = λ j. ground (arith, get_or-wake c j t.procs);
  parent = λ j. ground (arith, get_or-wake c j t.procs);
  initproc = refl;
}

pub kill-SameFamily : (pid : ℕ) (t : Table) → SameFamily t (kill pid t).1
unfolding kill
kill-SameFamily pid t = elim (Option-cases (find_from (λ p. p.pid == pid) 0 t.procs)) [
  | inl e ↦ rw (e, kill) (SameFamily-refl t)
  | inr (i, e) ↦
      rw (e, kill)
        (SameFamily-update t
          (λ p. record p {
            killed = true;
            state = if is_state p.state sleeping then runnable else p.state;
          })
          i (found_slot (λ p. p.pid == pid) t i e).0 (ground arith) refl)
]

pub schedule-SameFamily : (i : ℕ) (t : Table) → SameFamily t (schedule i t).1
unfolding schedule
schedule-SameFamily i t =
    elim (Option-cases (find_from (λ p. is_state p.state runnable) i (drop i t.procs))) [
      | inl e ↦ rw (e, schedule) (SameFamily-refl t)
      | inr (j, e) ↦
          let r = found_above (λ p. is_state p.state runnable) t i j e in
          rw (e, schedule)
            (SameFamily-update t (λ p. record p { state = running }) j r.0 (ground (arith, r.1))
              refl)
    ]

-- A round of `exit` changes the parent of a child of `cur` only.
parent-adopt :
    (cur i j : ℕ) (t : Table)
    → i < length t.procs
    → ((proc_at (adopt cur i t) j).parent ≡ (
        if i == j && is_proc cur (proc_at t i).parent
        then some t.initproc
        else (proc_at t j).parent))
      × ((adopt cur i t).initproc ≡ t.initproc)
unfolding adopt wakeup1
parent-adopt cur i j t h =
    let f : Proc → Proc = λ q. record q { parent = some t.initproc } in
    let a = get_or-assign f i j t.procs h in
    let b = get_or-wake (at_proc t.initproc) j (assign f i t.procs) in ground (arith, a, b)

-- After the loop no process of the rounds is a child of `cur`: such a child is init's.
pub parent-abandon :
    (cur k i j : ℕ) (t : Table)
    → i + k ≤ length t.procs
    → ((proc_at (abandon cur k i t) j).parent ≡ (
        if leb i j && ltb j (i + k) && is_proc cur (proc_at t j).parent
        then some t.initproc
        else (proc_at t j).parent))
      × ((abandon cur k i t).initproc ≡ t.initproc)
unfolding abandon
parent-abandon cur zero i j t h = ground arith
parent-abandon cur (suc k) i j t h =
    let ih = parent-abandon cur k (i + 1) j (adopt cur i t) (omega (arith, length-adopt cur i t)) in
    let a = parent-adopt cur i j t (omega arith) in
    elim (ℕ_discrete i j) [ yes e ↦ ground (arith, ih, a, e) | no ne ↦ ground (arith, ih, a) ]
