-- ===== src/Kernel/Proc/Tests.antt =====
-- A table of init, a shell and its child, with one free slot.
use base_system.Base.{ℕ, zero, suc, ◌+◌, ◌<◌, ◌≡◌, ◌≢◌, refl, true, none, some, [], ◌∷◌, arith}
use base_system.Kernel.Proc.{
  Proc, Table, unused, sleeping, runnable, running, at_proc, no_proc, proc_at, allocproc, fork,
  exit, reaped, wait, IsRunning, forks, exits, Reach, here, next,
}
use base_system.Kernel.Proc.Pids.{HasDistinctPids, is_live, kind}
use base_system.Kernel.Proc.Distinct.{Reach-distinct}
use base_system.Kernel.Proc.Waits.{is_zombie_child}
use base_system.Kernel.Proc.Family.{HasLiveParents}
use base_system.Kernel.Proc.Exits.{Exited, exit-Exited}
use base_system.Kernel.Proc.Orphans.{Reach-live}
use base_system.Kernel.Proc.Calls.{wait_after_exit, fork_leftovers}

abbrev init : Proc
init = record no_proc { state = sleeping; pid = 1; chan = some (at_proc 0) }

abbrev shell : Proc
shell = record no_proc { state = sleeping; pid = 2; parent = some 0; chan = some (at_proc 1) }

abbrev child : Proc
child = record no_proc { state = running; pid = 3; parent = some 1; uid = 7 }

-- The last slot was freed by a process that had been root and was killed.
abbrev free_slot : Proc
free_slot = record no_proc { killed = true; uid = 0 }

abbrev table : Table
table = record { procs = init ∷ shell ∷ child ∷ free_slot ∷ []; nextpid = 4; initproc = 0 }

pids_below : (i : ℕ) → is_live (proc_at table i) ≡ true → (proc_at table i).pid < 4
pids_below zero h = omega arith
pids_below (suc zero) h = omega arith
pids_below (suc (suc zero)) h = omega arith
pids_below (suc (suc (suc zero))) h = absurd (cc)
pids_below (suc (suc (suc (suc i)))) h = absurd (cc)

-- The slot of a live process by its pid.
slot_of_pid : (i : ℕ) → is_live (proc_at table i) ≡ true → i + 1 ≡ (proc_at table i).pid
slot_of_pid zero h = refl
slot_of_pid (suc zero) h = refl
slot_of_pid (suc (suc zero)) h = refl
slot_of_pid (suc (suc (suc zero))) h = absurd (cc)
slot_of_pid (suc (suc (suc (suc i)))) h = absurd (cc)

table-HasDistinctPids : HasDistinctPids table
table-HasDistinctPids = record {
  below = pids_below;
  distinct = λ i j a b e. omega (arith, slot_of_pid i a, slot_of_pid j b, e);
}

parents_live : (i j : ℕ) → (proc_at table i).parent ≡ some j → kind (proc_at table j).state ≡ 2
parents_live zero j e = absurd (cc)
parents_live (suc zero) j e = ground arith
parents_live (suc (suc zero)) j e = ground arith
parents_live (suc (suc (suc zero))) j e = absurd (cc)
parents_live (suc (suc (suc (suc i)))) j e = absurd (cc)

has_parent :
    (i : ℕ)
    → kind (proc_at table i).state ≢ 0
    → i ≢ 0
    → (j : ℕ) × ((proc_at table i).parent ≡ some j)
has_parent zero l n = absurd (n refl)
has_parent (suc zero) l n = (0, refl)
has_parent (suc (suc zero)) l n = (1, refl)
has_parent (suc (suc (suc zero))) l n = absurd (l refl)
has_parent (suc (suc (suc (suc i)))) l n = absurd (l refl)

table-HasLiveParents : HasLiveParents table
table-HasLiveParents = record { parents = parents_live; init = refl; child = has_parent }

-- The child forks, then exits while its own child is ready to run.
abbrev forked : Table
forked = (fork 2 (some 64) (some 96) table).1

abbrev exited : Table
exited = elim (exit 2 forked) [ some u ↦ u | none ↦ forked ]

exit_returns : exit 2 forked ≡ some exited
unfolding exit fork allocproc
exit_returns = refl

child_runs : IsRunning forked 2
unfolding fork allocproc
child_runs = refl

child_parent : (proc_at forked 2).parent ≡ some 1
unfolding fork allocproc
child_parent = refl

-- Its child now belongs to init, and the shell that waits for it can run.
orphan_parent : (proc_at exited 3).parent ≡ some 0
unfolding exit fork allocproc
orphan_parent = refl

shell_woken : (proc_at exited 1).state ≡ runnable
unfolding exit fork allocproc
shell_woken = refl

abbrev run : Reach table exited
run =
    next {u = forked} (next {u = table} here (forks 2 (some 64) (some 96) refl refl))
      (exits 2 child_runs exit_returns)

Reach-distinct_example : HasDistinctPids exited
Reach-distinct_example = Reach-distinct run (omega arith) table-HasDistinctPids

Reach-live_example : HasLiveParents exited
Reach-live_example = Reach-live run table-HasLiveParents

exit-Exited_example : Exited 2 forked exited
exit-Exited_example = exit-Exited 2 forked exited child_runs exit_returns

wait_after_exit_example :
    (pid : ℕ) × (v : Table) × (i : ℕ) × (wait 1 exited ≡ reaped pid v)
    × (is_zombie_child 1 (proc_at exited i) ≡ true)
    × (pid ≡ (proc_at exited i).pid)
    × ((proc_at v i).state ≡ unused)
wait_after_exit_example =
    wait_after_exit 2 1 forked exited child_runs exit_returns child_parent
      (λ e. absurd (omega arith))

free_found : (allocproc (some 64) table).0 ≡ some 3
unfolding allocproc
free_found = refl

-- The child of a process with the user id 7 has the user id 0, and is killed at once.
fork_leftovers_example :
    let u = (fork 2 (some 64) (some 96) table).1 in
    ((proc_at u 3).killed ≡ true)
    × ((proc_at u 3).uid ≡ 0)
    × ((proc_at u 3).parent ≡ some 2)
    × ((proc_at u 3).pid ≡ 4)
fork_leftovers_example = fork_leftovers 2 64 96 3 table free_found
