-- ===== src/Kernel/Proc/Pids.antt =====
-- The pids of the live processes of kernel/proc.c.
use native.Mathlib.Decide.{ℕ_discrete}
use base_system.Base.{
  ℕ, zero, suc, ◌+◌, ◌≤◌, ◌<◌, ◌≡◌, refl, ◌∙◌, Bool, true, not, Option, none, some, map, arith,
  ◌==◌, if◌then◌else◌, length, drop, Bool-cases, Option-cases, inl, inr,
}
use base_system.Kernel.Proc.{
  Proc, Table, Chan, ProcState, unused, sleeping, runnable, running, zombie, is_state, find_from,
  assign, update, proc_at, wakeup1, kill, adopt, abandon, exit, schedule, is_proc, at_proc,
  IsRunning,
}
use base_system.Kernel.Proc.Slots.{
  get_or-assign, length-assign, get_or-wake, length-wake, found_slot, found_above, get_or-beyond,
}

abbrev pub is_live : Proc → Bool
is_live p = not (is_state p.state unused)

-- Pids of live processes are below `nextpid` and distinct.
pub record HasDistinctPids (t : Table) : Type 0 where
  pub below : (i : ℕ) → is_live (proc_at t i) ≡ true → (proc_at t i).pid < t.nextpid
  pub distinct :
      (i j : ℕ)
      → is_live (proc_at t i) ≡ true
      → is_live (proc_at t j) ≡ true
      → (proc_at t i).pid ≡ (proc_at t j).pid
      → i ≡ j

-- A call that makes no process: whoever is live after it was live before, with the same pid.
pub record NoBirth (t u : Table) : Type 0 where
  pub live : (i : ℕ) → is_live (proc_at u i) ≡ true → is_live (proc_at t i) ≡ true
  pub pid : (i : ℕ) → is_live (proc_at u i) ≡ true → (proc_at u i).pid ≡ (proc_at t i).pid
  pub nextpid : u.nextpid ≡ t.nextpid

pub NoBirth-distinct : (t u : Table) → NoBirth t u → HasDistinctPids t → HasDistinctPids u
NoBirth-distinct t u n h = record {
  below = λ i l. ground (arith, n.live i l, n.pid i l, n.nextpid, h.below i (n.live i l));
  distinct =
      λ i j a b e. h.distinct i j (n.live i a) (n.live j b) (ground (arith, n.pid i a, n.pid j b));
}

pub more_pids :
    (t : Table) (n : ℕ)
    → t.nextpid ≤ n
    → HasDistinctPids t
    → HasDistinctPids (record t { nextpid = n })
more_pids t n l h = record { below = λ i a. omega (arith, h.below i a, l); distinct = h.distinct }

pub NoBirth-trans : (t u v : Table) → NoBirth t u → NoBirth u v → NoBirth t v
NoBirth-trans t u v a b = record {
  live = λ i l. a.live i (b.live i l);
  pid = λ i l. b.pid i l ∙ a.pid i (b.live i l);
  nextpid = b.nextpid ∙ a.nextpid;
}

-- Unused, zombie, or alive in some way.
abbrev pub kind : ProcState → ℕ
kind unused = 0
kind zombie = 1
kind _ = 2

-- A call that keeps the kind and the pid of every slot.
pub record Calm (t u : Table) : Type 0 where
  pub kinds : (i : ℕ) → kind (proc_at u i).state ≡ kind (proc_at t i).state
  pub pid : (i : ℕ) → (proc_at u i).pid ≡ (proc_at t i).pid
  pub nextpid : u.nextpid ≡ t.nextpid

pub Calm-NoBirth : (t u : Table) → Calm t u → NoBirth t u
Calm-NoBirth t u c = record {
  live = λ i l. ground (arith, c.kinds i);
  pid = λ i l. c.pid i;
  nextpid = c.nextpid;
}

pub Calm-refl : (t : Table) → Calm t t
Calm-refl t = record { kinds = λ i. refl; pid = λ i. refl; nextpid = refl }

pub Calm-trans : (t u v : Table) → Calm t u → Calm u v → Calm t v
Calm-trans t u v a b = record {
  kinds = λ i. b.kinds i ∙ a.kinds i;
  pid = λ i. b.pid i ∙ a.pid i;
  nextpid = b.nextpid ∙ a.nextpid;
}

-- An assignment to one slot that keeps its kind and pid.
pub Calm-update :
    (t : Table) (f : Proc → Proc) (i : ℕ)
    → i < length t.procs
    → kind (f (proc_at t i)).state ≡ kind (proc_at t i).state
    → (f (proc_at t i)).pid ≡ (proc_at t i).pid
    → Calm t (update f i t)
Calm-update t f i h k q = record {
  kinds = λ j. elim (ℕ_discrete i j) [
    | yes e ↦ ground (arith, get_or-assign f i j t.procs h, e)
    | no ne ↦ ground (arith, get_or-assign f i j t.procs h)
  ];
  pid = λ j. elim (ℕ_discrete i j) [
    | yes e ↦ ground (arith, get_or-assign f i j t.procs h, e)
    | no ne ↦ ground (arith, get_or-assign f i j t.procs h)
  ];
  nextpid = refl;
}

-- An assignment to one slot that keeps the pid and makes nobody live.
pub NoBirth-update :
    (t : Table) (f : Proc → Proc) (i : ℕ)
    → i < length t.procs
    → (is_live (f (proc_at t i)) ≡ true
        → (is_live (proc_at t i) ≡ true) × ((f (proc_at t i)).pid ≡ (proc_at t i).pid))
    → NoBirth t (update f i t)
NoBirth-update t f i h k = record {
  live = λ j l. elim (ℕ_discrete i j) [
    | yes e ↦ ground (arith, get_or-assign f i j t.procs h, k, e)
    | no ne ↦ ground (arith, get_or-assign f i j t.procs h)
  ];
  pid = λ j l. elim (ℕ_discrete i j) [
    | yes e ↦ ground (arith, get_or-assign f i j t.procs h, k, e)
    | no ne ↦ ground (arith, get_or-assign f i j t.procs h)
  ];
  nextpid = refl;
}

-- A running process has a slot.
pub running_slot : (t : Table) (i : ℕ) → (proc_at t i).state ≡ running → i < length t.procs
running_slot t i e = ground (arith, get_or-beyond t.procs i)

pub wakeup1-Calm : (c : Chan) (t : Table) → Calm t (wakeup1 c t)
unfolding wakeup1
wakeup1-Calm c t = record {
  kinds = λ j. ground (arith, get_or-wake c j t.procs);
  pid = λ j. ground (arith, get_or-wake c j t.procs);
  nextpid = refl;
}

pub kill-Calm : (pid : ℕ) (t : Table) → Calm t (kill pid t).1
unfolding kill
kill-Calm pid t = elim (Option-cases (find_from (λ p. p.pid == pid) 0 t.procs)) [
  | inl e ↦ rw (e, kill) (Calm-refl t)
  | inr (i, e) ↦
      rw (e, kill)
        (Calm-update t
          (λ p. record p {
            killed = true;
            state = if is_state p.state sleeping then runnable else p.state;
          })
          i (found_slot (λ p. p.pid == pid) t i e).0 (ground arith) refl)
]

pub schedule-Calm : (i : ℕ) (t : Table) → Calm t (schedule i t).1
unfolding schedule
schedule-Calm i t =
    elim (Option-cases (find_from (λ p. is_state p.state runnable) i (drop i t.procs))) [
      | inl e ↦ rw (e, schedule) (Calm-refl t)
      | inr (j, e) ↦
          let r = found_above (λ p. is_state p.state runnable) t i j e in
          rw (e, schedule)
            (Calm-update t (λ p. record p { state = running }) j r.0 (ground (arith, r.1)) refl)
    ]

pub length-adopt : (cur i : ℕ) (t : Table) → length (adopt cur i t).procs ≡ length t.procs
unfolding adopt
length-adopt cur i t =
    let f : Proc → Proc = λ q. record q { parent = some t.initproc } in
    ground (arith, length-assign f i t.procs, length-wake (at_proc t.initproc) (assign f i t.procs))

pub adopt-Calm : (cur i : ℕ) (t : Table) → i < length t.procs → Calm t (adopt cur i t)
unfolding adopt
adopt-Calm cur i t h =
    let f : Proc → Proc = λ q. record q { parent = some t.initproc } in
    let a : Calm t (update f i t) = Calm-update t f i h refl refl in
    let b = wakeup1-Calm (at_proc t.initproc) (update f i t) in
    elim (Bool-cases (is_proc cur (proc_at t i).parent)) [
      | inr e ↦ rw (e, adopt) (Calm-refl t)
      | inl e ↦ elim (Bool-cases (is_state (proc_at t i).state zombie)) [
        | inl z ↦ rw (e, z, adopt) (Calm-trans t (update f i t) _ a b)
        | inr z ↦ rw (e, z, adopt) a
      ]
    ]

pub abandon-Calm : (cur k i : ℕ) (t : Table) → i + k ≤ length t.procs → Calm t (abandon cur k i t)
unfolding abandon
abandon-Calm cur zero i t h = Calm-refl t
abandon-Calm cur (suc k) i t h =
    Calm-trans t (adopt cur i t) (abandon cur k (i + 1) (adopt cur i t))
      (adopt-Calm cur i t (omega arith))
      (abandon-Calm cur k (i + 1) (adopt cur i t) (omega (arith, length-adopt cur i t)))

pub length-abandon : (cur k i : ℕ) (t : Table) → length (abandon cur k i t).procs ≡ length t.procs
unfolding abandon
length-abandon cur zero i t = refl
length-abandon cur (suc k) i t = length-abandon cur k (i + 1) (adopt cur i t) ∙ length-adopt cur i t

-- The parent of the exiting process, if any, is woken.
pub wake_parent-Calm :
    (o : Option ℕ) (t : Table)
    → let u : Table = elim o [ none ↦ t | some q ↦ wakeup1 (at_proc q) t ] in
      Calm t u × (length u.procs ≡ length t.procs)
wake_parent-Calm none t = (Calm-refl t, refl)
wake_parent-Calm (some q) t =
    (wakeup1-Calm (at_proc q) t, unfold wakeup1 in length-wake (at_proc q) t.procs)

pub exit-NoBirth : (cur : ℕ) (t u : Table) → IsRunning t cur → exit cur t ≡ some u → NoBirth t u
unfolding exit
exit-NoBirth cur t u r e =
    let f : Proc → Proc = λ p. record p { ofile = map (λ g. none) p.ofile; cwd = none } in
    let slot = running_slot t cur r in
    let t1 = update f cur t in
    let w = wake_parent-Calm (proc_at t cur).parent t1 in
    let t2 : Table = elim (proc_at t cur).parent [ none ↦ t1 | some q ↦ wakeup1 (at_proc q) t1 ] in
    let t3 = abandon cur (length t2.procs) 0 t2 in
    let g : Proc → Proc = λ p. record p { state = zombie } in
    let a = Calm-update t f cur slot refl refl in
    let b = abandon-Calm cur (length t2.procs) 0 t2 (omega arith) in
    let c = Calm-trans t t2 t3 (Calm-trans t t1 t2 a w.0) b in
    let len : length t3.procs ≡ length t.procs =
      length-abandon cur (length t2.procs) 0 t2 ∙ (w.1 ∙ length-assign f cur t.procs) in
    let last =
      NoBirth-update t3 g cur (omega (arith, len, slot))
        (λ l. (ground (arith, c.kinds cur), refl)) in
    let same : update g cur t3 ≡ u = ground arith in
    rw (← same) (NoBirth-trans t t3 (update g cur t3) (Calm-NoBirth t t3 c) last)
