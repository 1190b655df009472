-- ===== src/Kernel/Proc.antt =====
-- kernel/proc.c: the process table, process creation and exit, sleeping and waking, the scheduler.
-- A function that holds `ptable.lock` from its start to its end or to its switch to the scheduler is one
-- step. `fork` takes its slot under the lock and then works on a slot in the state EMBRYO: it is one step
-- too. A pointer to a process is its index in `ptable.proc`.
pub mod Slots
pub mod Family
pub mod Pids
pub mod Waits
pub mod Births
pub mod Distinct
pub mod Exits
pub mod Orphans
pub mod Calls
mod Tests
use base_system.Base.{
  ℕ, zero, suc, ◌+◌, ◌-◌, ◌%◌, ◌^◌, Bool, true, false, not, ◌&&◌, ◌||◌, Option, none, some, List,
  [], ◌∷◌, map, ◌≡◌, ◌==◌, if◌then◌else◌, get_or, length, drop,
}

-- `enum procstate`
pub data ProcState : Type 0 where
  unused embryo sleeping runnable running zombie : ProcState

-- A sleep channel: the address of a process (`wait` sleeps there) or any other address.
pub data Chan : Type 0 where
  at_proc : ℕ → Chan
  at_address : ℕ → Chan

-- `struct proc` without its trap frame and context. Pages, files and inodes are their addresses, and
-- `name` is the text before the terminating zero.
pub record Proc : Type 0 where
  pub sz : ℕ
  pub pgdir : ℕ
  pub kstack : Option ℕ
  pub state : ProcState
  pub pid : ℕ
  pub parent : Option ℕ
  pub chan : Option Chan
  pub killed : Bool
  pub ofile : List (Option ℕ)
  pub cwd : Option ℕ
  pub name : List ℕ
  pub uid : ℕ

-- `ptable`, `nextpid` and `initproc`. A pid is the 32 bits of an `int`.
pub record Table : Type 0 where
  pub procs : List Proc
  pub nextpid : ℕ
  pub initproc : ℕ

abbrev pub is_state : ProcState → ProcState → Bool
is_state unused unused = true
is_state embryo embryo = true
is_state sleeping sleeping = true
is_state runnable runnable = true
is_state running running = true
is_state zombie zombie = true
is_state _ _ = false

abbrev pub is_proc : ℕ → Option ℕ → Bool
is_proc i none = false
is_proc i (some j) = i == j

abbrev pub same_chan : Chan → Option Chan → Bool
same_chan c none = false
same_chan (at_proc i) (some (at_proc j)) = i == j
same_chan (at_address a) (some (at_address b)) = a == b
same_chan _ _ = false

-- The first index at or above `i` whose process passes a test.
unfoldable pub find_from : (Proc → Bool) → ℕ → List Proc → Option ℕ
find_from test i [] = none
find_from test i (p ∷ ps) = let rest = find_from test (i + 1) ps in if test p then some i else rest

-- An assignment to fields of the process at a pointer.
unfoldable pub assign : (Proc → Proc) → ℕ → List Proc → List Proc
assign f i [] = []
assign f zero (p ∷ ps) = f p ∷ ps
assign f (suc i) (p ∷ ps) = p ∷ assign f i ps

abbrev pub no_proc : Proc
no_proc = record {
  sz = 0;
  pgdir = 0;
  kstack = none;
  state = unused;
  pid = 0;
  parent = none;
  chan = none;
  killed = false;
  ofile = [];
  cwd = none;
  name = [];
  uid = 0;
}

abbrev pub proc_at : Table → ℕ → Proc
proc_at t i = get_or t.procs i no_proc

abbrev pub update : (Proc → Proc) → ℕ → Table → Table
update f i t = record t { procs = assign f i t.procs }

-- `allocproc`. `page` is what `kalloc` returns for the kernel stack; the trap frame and the context
-- that are set up on it are not modelled.
unfoldable pub allocproc : Option ℕ → Table → Option ℕ × Table
unfolding find_from assign
allocproc page t = elim (find_from (λ p. is_state p.state unused) 0 t.procs) [
  | none ↦ (none, t)
  | some i ↦
      let t1 = record (update (λ p. record p { state = embryo; pid = t.nextpid }) i t) {
        nextpid = (t.nextpid + 1) % 2 ^ 32;
      } in
      elim page [
        | none ↦ (none, update (λ p. record p { state = unused }) i t1)
        | some a ↦ (some i, update (λ p. record p { kstack = some a }) i t1)
      ]
]

-- `if(proc->ofile[i]) np->ofile[i] = filedup(proc->ofile[i])`
pub copy_files : List (Option ℕ) → List (Option ℕ) → List (Option ℕ)
copy_files (some f ∷ fs) (g ∷ gs) = some f ∷ copy_files fs gs
copy_files (none ∷ fs) (g ∷ gs) = g ∷ copy_files fs gs
copy_files _ gs = gs

-- `fork` by the process `cur`; `copied` is the page table that `copyuvm` returns. The result is the
-- child's pid, -1 as `none`. The references that `filedup` and `idup` add are those of the copied
-- `ofile` and `cwd`.
unfoldable pub fork : ℕ → Option ℕ → Option ℕ → Table → Option ℕ × Table
unfolding copy_files
fork cur page copied t =
    let made = allocproc page t in
    elim made.0 [
      | none ↦ (none, made.1)
      | some np ↦ elim copied [
        | none ↦ (none, update (λ p. record p { kstack = none; state = unused }) np made.1)
        | some dir ↦
            let me = proc_at t cur in
            (
              some (proc_at made.1 np).pid,
              update
                  (λ p. record p {
                    pgdir = dir;
                    sz = me.sz;
                    parent = some cur;
                    ofile = copy_files me.ofile p.ofile;
                    cwd = me.cwd;
                    state = runnable;
                    name = me.name;
                  })
                  np made.1,
            )
      ]
    ]

-- `wakeup1`, and `wakeup` with the lock taken.
abbrev pub wake : Chan → Proc → Proc
wake c p =
    if is_state p.state sleeping && same_chan c p.chan then record p { state = runnable } else p

unfoldable pub wakeup1 : Chan → Table → Table
wakeup1 c t = record t { procs = map (wake c) t.procs }

-- `kill`: the first process with the pid. The result is whether there is one (0 or -1).
unfoldable pub kill : ℕ → Table → Bool × Table
unfolding find_from assign
kill pid t = elim (find_from (λ p. p.pid == pid) 0 t.procs) [
  | none ↦ (false, t)
  | some i ↦ (
    true,
    update
        (λ p. record p {
          killed = true;
          state = if is_state p.state sleeping then runnable else p.state;
        })
        i t,
  )
]

-- A round of the loop of `exit` over the table: a child of `cur` goes to init, which is woken if the
-- child is a zombie.
unfoldable pub adopt : ℕ → ℕ → Table → Table
unfolding wakeup1 assign
adopt cur i t =
    let p = proc_at t i in
    let t1 = update (λ q. record q { parent = some t.initproc }) i t in
    let t2 = if is_state p.state zombie then wakeup1 (at_proc t.initproc) t1 else t1 in
    if is_proc cur p.parent then t2 else t

-- The loop from index `i` on, with `k` rounds left.
unfoldable pub abandon : ℕ → ℕ → ℕ → Table → Table
unfolding adopt
abandon cur zero i t = t
abandon cur (suc k) i t = abandon cur k (i + 1) (adopt cur i t)

-- `exit` of the process `cur`, up to its last `sched`; `none` is the panic "init exiting". The open
-- files and the directory are closed in kernel/file.c and kernel/fs.c.
unfoldable pub exit : ℕ → Table → Option Table
unfolding abandon wakeup1 assign
exit cur t =
    if cur == t.initproc
    then none
    else let me = proc_at t cur in
      let t1 = update (λ p. record p { ofile = map (λ f. none) p.ofile; cwd = none }) cur t in
      let t2 : Table = elim me.parent [ none ↦ t1 | some q ↦ wakeup1 (at_proc q) t1 ] in
      let t3 = abandon cur (length t2.procs) 0 t2 in
      some (update (λ p. record p { state = zombie }) cur t3)

-- How `wait` ends or goes on.
pub data Waited : Type 0 where
  reaped : ℕ → Table → Waited
  failed : Waited
  asleep : Table → Waited

-- Before the switch in `sleep`; afterwards the process clears `chan`.
unfoldable pub sleep_on : Chan → ℕ → Table → Table
unfolding assign
sleep_on c cur t = update (λ p. record p { chan = some c; state = sleeping }) cur t

unfoldable pub after_sleep : ℕ → Table → Table
unfolding assign
after_sleep cur t = update (λ p. record p { chan = none }) cur t

-- One round of `wait` by the process `cur`; woken, it looks again.
unfoldable pub wait : ℕ → Table → Waited
unfolding find_from sleep_on assign
wait cur t = elim (find_from (λ p. is_proc cur p.parent && is_state p.state zombie) 0 t.procs) [
  | some i ↦ reaped (proc_at t i).pid (
      update
        (λ p. record p {
          kstack = none;
          state = unused;
          pid = 0;
          parent = none;
          killed = false;
          name = [];
        })
        i t)
  | none ↦ elim (find_from (λ p. is_proc cur p.parent) 0 t.procs) [
    | none ↦ failed
    | some j ↦ if (proc_at t cur).killed then failed else asleep (sleep_on (at_proc cur) cur t)
  ]
]

-- The scheduler's choice at or above the index `i`, now running.
unfoldable pub schedule : ℕ → Table → Option ℕ × Table
unfolding find_from assign
schedule i t = elim (find_from (λ p. is_state p.state runnable) i (drop i t.procs)) [
  | none ↦ (none, t)
  | some j ↦ (some j, update (λ p. record p { state = running }) j t)
]

-- `yield`, up to its switch to the scheduler.
unfoldable pub yield : ℕ → Table → Table
unfolding assign
yield cur t = update (λ p. record p { state = runnable }) cur t

abbrev pub IsRunning : Table → ℕ → Type 0
IsRunning t cur = (proc_at t cur).state ≡ running

-- One call on the table, by the running process `cur` or by the scheduler or an interrupt.
pub data Step (t u : Table) : Type 0 where
  forks :
      (cur : ℕ) (page copied : Option ℕ)
      → IsRunning t cur
      → u ≡ (fork cur page copied t).1
      → Step t u
  exits : (cur : ℕ) → IsRunning t cur → exit cur t ≡ some u → Step t u
  reaps : (cur pid : ℕ) → IsRunning t cur → wait cur t ≡ reaped pid u → Step t u
  waits : (cur : ℕ) → IsRunning t cur → wait cur t ≡ asleep u → Step t u
  sleeps : (cur : ℕ) (c : Chan) → IsRunning t cur → u ≡ sleep_on c cur t → Step t u
  resumes : (cur : ℕ) → IsRunning t cur → u ≡ after_sleep cur t → Step t u
  yields : (cur : ℕ) → IsRunning t cur → u ≡ yield cur t → Step t u
  wakes : (c : Chan) → u ≡ wakeup1 c t → Step t u
  kills : (pid : ℕ) → u ≡ (kill pid t).1 → Step t u
  schedules : (i : ℕ) → u ≡ (schedule i t).1 → Step t u

pub data Reach (t : Table) : Table → Type 0 where
  here : Reach t t
  next : {u v : Table} → Reach t u → Step u v → Reach t v

-- How many of the calls are of `fork`.
abbrev pub new_forks : {t u : Table} → Step t u → ℕ
new_forks (forks cur page copied r e) = 1
new_forks _ = 0

abbrev pub fork_count : {t u : Table} → Reach t u → ℕ
fork_count here = 0
fork_count (next r st) = fork_count r + new_forks st
