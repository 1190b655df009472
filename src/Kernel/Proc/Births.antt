-- ===== src/Kernel/Proc/Births.antt =====
-- The slot of the process that `allocproc` and `fork` of kernel/proc.c make.
use native.Mathlib.Decide.{ℕ_discrete}
use base_system.Base.{
  ℕ, ◌+◌, ◌%◌, ◌^◌, ◌≤◌, ◌<◌, ◌≡◌, refl, ◌∙◌, ◌≢◌, true, Option, none, some, arith, length,
  Option-cases, inl, inr, ◌⊎◌,
}
use base_system.Kernel.Proc.{
  Proc, Table, unused, embryo, runnable, is_state, find_from, assign, update, proc_at, fork,
  allocproc, copy_files,
}
use base_system.Kernel.Proc.Slots.{get_or-assign, length-assign, found_slot}
use base_system.Kernel.Proc.Pids.{is_live, HasDistinctPids, NoBirth, NoBirth-distinct, more_pids}

-- The process that `allocproc` makes has the next pid, and the others stay as they were.
pub record Born (t : Table) (i : ℕ) (u : Table) : Type 0 where
  pub slot : i < length t.procs
  pub empty : (proc_at t i).state ≡ unused
  pub state : (proc_at u i).state ≡ embryo
  pub pid : (proc_at u i).pid ≡ t.nextpid
  pub parent : (proc_at u i).parent ≡ (proc_at t i).parent
  pub killed : (proc_at u i).killed ≡ (proc_at t i).killed
  pub uid : (proc_at u i).uid ≡ (proc_at t i).uid
  pub others : (j : ℕ) → j ≢ i → proc_at u j ≡ proc_at t j
  pub nextpid : u.nextpid ≡ (t.nextpid + 1) % 2 ^ 32
  pub initproc : u.initproc ≡ t.initproc
  pub length_lem : length u.procs ≡ length t.procs

abbrev pub with_pid : ℕ → Proc → Proc
with_pid n p = record p { state = embryo; pid = n }

abbrev pub claimed : ℕ → Table → Table
claimed i t = record (update (with_pid t.nextpid) i t) { nextpid = (t.nextpid + 1) % 2 ^ 32 }

Born-claimed :
    (a i : ℕ) (t : Table)
    → i < length t.procs
    → (proc_at t i).state ≡ unused
    → Born t i (update (λ p. record p { kstack = some a }) i (claimed i t))
Born-claimed a i t h empty =
    let g : Proc → Proc = λ p. record p { kstack = some a } in
    let len = length-assign (with_pid t.nextpid) i t.procs in
    let ps = assign (with_pid t.nextpid) i t.procs in
    let first = λ (j : ℕ). get_or-assign (with_pid t.nextpid) i j t.procs h in
    let second = λ (j : ℕ). get_or-assign g i j ps (omega (arith, len)) in
    record {
      slot = h;
      empty = empty;
      state = ground (arith, first i, second i);
      pid = ground (arith, first i, second i);
      parent = ground (arith, first i, second i);
      killed = ground (arith, first i, second i);
      uid = ground (arith, first i, second i);
      others = λ j ne. ground (arith, first j, second j);
      nextpid = refl;
      initproc = refl;
      length_lem = length-assign g i ps ∙ len;
    }

pub unused_slot :
    (t : Table) (i : ℕ)
    → find_from (λ p. is_state p.state unused) 0 t.procs ≡ some i
    → (i < length t.procs) × ((proc_at t i).state ≡ unused)
unused_slot t i f =
    let r = found_slot (λ p. is_state p.state unused) t i f in (r.0, ground (arith, r.1))

-- `nextpid` can be counted up without an overflow.
abbrev pub HasPid : Table → Type 0
HasPid t = t.nextpid + 1 < 2 ^ 31

-- The pid of a slot that is given back is lost.
distinct_lost :
    (i : ℕ) (t : Table)
    → i < length t.procs
    → (proc_at t i).state ≡ unused
    → HasPid t
    → HasDistinctPids t
    → HasDistinctPids (update (λ p. record p { state = unused }) i (claimed i t))
distinct_lost i t h empty room d =
    let g : Proc → Proc = λ p. record p { state = unused } in
    let ps = assign (with_pid t.nextpid) i t.procs in
    let first = λ (j : ℕ). get_or-assign (with_pid t.nextpid) i j t.procs h in
    let second = λ (j : ℕ).
      get_or-assign g i j ps (omega (arith, length-assign (with_pid t.nextpid) i t.procs)) in
    let kept : NoBirth t
        (update (λ p. record p { state = unused }) i (update (with_pid t.nextpid) i t)) =
      record {
        live = λ j l. ground (arith, first j, second j);
        pid = λ j l. ground (arith, first j, second j);
        nextpid = refl;
      } in
    more_pids (update (λ p. record p { state = unused }) i (update (with_pid t.nextpid) i t))
      ((t.nextpid + 1) % 2 ^ 32) (omega (arith, room)) (NoBirth-distinct t _ kept d)

pub allocproc-Born :
    (page : Option ℕ) (t : Table) (i : ℕ)
    → (allocproc page t).0 ≡ some i
    → Born t i (allocproc page t).1
unfolding allocproc
allocproc-Born page t i e =
    elim (Option-cases (find_from (λ p. is_state p.state unused) 0 t.procs)) [
      | inl f ↦ absurd (ground (arith, f))
      | inr (k, f) ↦ elim (Option-cases page) [
        | inl g ↦ absurd (ground (arith, f, g))
        | inr (a, g) ↦
            let same : k ≡ i = ground (arith, f, g) in
            let r = unused_slot t k f in
            rw (f, allocproc) (rw (g, allocproc) (rw (← same) (Born-claimed a k t r.0 r.1)))
      ]
    ]

-- Without a page or a slot nobody is made; the pid that was taken is lost.
pub allocproc-none :
    (page : Option ℕ) (t : Table)
    → (allocproc page t).0 ≡ none
    → HasPid t
    → HasDistinctPids t
    → let u = (allocproc page t).1 in HasDistinctPids u × (u.nextpid ≤ t.nextpid + 1)
unfolding allocproc
allocproc-none page t e room d =
    elim (Option-cases (find_from (λ p. is_state p.state unused) 0 t.procs)) [
      | inl f ↦ rw (f, allocproc) (d, omega arith)
      | inr (k, f) ↦ elim (Option-cases page) [
        | inr (a, g) ↦ absurd (ground (arith, f, g))
        | inl g ↦
            let r = unused_slot t k f in
            rw (f, allocproc) (rw (g, allocproc) (distinct_lost k t r.0 r.1 room d, omega arith))
      ]
    ]

-- Anyone live who is not the new process was there before.
Born-old :
    (t : Table) (i j : ℕ) (u : Table)
    → Born t i u
    → HasDistinctPids t
    → j ≢ i
    → is_live (proc_at u j) ≡ true
    → (is_live (proc_at t j) ≡ true)
      × ((proc_at u j).pid ≡ (proc_at t j).pid)
      × ((proc_at u j).pid < t.nextpid)
Born-old t i j u b h ne l =
    let same = b.others j ne in
    let l' : is_live (proc_at t j) ≡ true = rw same at l in
    (l', rw same refl, rw same (h.below j l'))

pub Born-distinct :
    (t : Table) (i : ℕ) (u : Table) → Born t i u → HasPid t → HasDistinctPids t → HasDistinctPids u
Born-distinct t i u b room h = record {
  below = λ j l. elim (ℕ_discrete j i) [
    | yes e ↦ rw e (omega (arith, b.pid, b.nextpid, room))
    | no ne ↦ omega (arith, (Born-old t i j u b h ne l).2, b.nextpid, room)
  ];
  distinct = λ j k lj lk e. elim (ℕ_discrete j i) [
    | yes ej ↦ elim (ℕ_discrete k i) [
      | yes ek ↦ omega arith
      | no nk ↦
          let o = (Born-old t i k u b h nk lk).2 in
          let p : (proc_at u j).pid ≡ t.nextpid = rw ej (b.pid) in absurd (omega (arith, o, p))
    ]
    | no nj ↦ elim (ℕ_discrete k i) [
      | yes ek ↦
          let o = (Born-old t i j u b h nj lj).2 in
          let p : (proc_at u k).pid ≡ t.nextpid = rw ek (b.pid) in absurd (omega (arith, o, p))
      | no nk ↦
          let oj = Born-old t i j u b h nj lj in
          let ok' = Born-old t i k u b h nk lk in
          h.distinct j k oj.0 ok'.0 (omega (arith, oj.1, ok'.1))
    ]
  ];
}

-- What `fork` does to the new slot, for the parent `me`.
abbrev pub child : ℕ → ℕ → Proc → Proc → Proc
child cur dir me p = record p {
  pgdir = dir;
  sz = me.sz;
  parent = some cur;
  ofile = copy_files me.ofile p.ofile;
  cwd = me.cwd;
  state = runnable;
  name = me.name;
}

abbrev pub abort : Proc → Proc
abort p = record p { kstack = none; state = unused }

-- The ways in which `fork` can end.
pub fork-cases :
    (cur : ℕ) (page copied : Option ℕ) (t : Table)
    → let made = allocproc page t in
      ((made.0 ≡ none) × (fork cur page copied t ≡ (none, made.1)))
      ⊎ ((i : ℕ) × (made.0 ≡ some i)
          × ((fork cur page copied t ≡ (none, update abort i made.1))
              ⊎ ((dir : ℕ) × (fork cur page copied t ≡ (
                some (proc_at made.1 i).pid,
                update (child cur dir (proc_at t cur)) i made.1,
              )))))
unfolding fork
fork-cases cur page copied t = elim (Option-cases ((allocproc page t).0)) [
  | inl e ↦ inl (e, rw (e, fork) refl)
  | inr (i, e) ↦ inr (
    i,
    e,
    elim (Option-cases copied) [
      | inl f ↦ inl (rw (e, fork) (rw (f, fork) refl))
      | inr (dir, f) ↦ inr (dir, rw (e, fork) (rw (f, fork) refl))
    ],
  )
]
