-- ===== src/Kernel/Log/Boot.antt =====
-- The system after a reboot, before `recover_from_log`.
use base_system.Base.{ℕ, zero, suc, ◌<◌, ◌≡◌, refl, false, none, arith, ◌==◌, replicate}
use base_system.Kernel.Action.{ok}
use base_system.Kernel.Bio.{Disk, disk_read, binit, empty_buf, find_buf, nbuf}
use base_system.Kernel.Bio.Bufs.{All, Unique, free_count}
use base_system.Kernel.Bio.Wf.{Good, dirty_at}
use base_system.Kernel.Log.{System, logsize, recover_from_log}
use base_system.Kernel.Log.Steps.{IsReady}
use base_system.Kernel.Log.Install.{Layout, installed}
use base_system.Kernel.Log.Recover.{head_n, head_list, recover_from_log_lem}

-- An empty cache, and the zeroed `log` with the fields that `initlog` sets before the recovery.
abbrev pub rebooted : Disk → ℕ → ℕ → System
rebooted d start size = record {
  cache = binit d;
  log = record {
    start = start;
    size = size;
    busy = false;
    dev = 1;
    n = 0;
    sector = replicate logsize 0;
  };
}

Good-empty : (d : Disk) → Good d empty_buf
Good-empty d = record { clean = λ x. cc; pinned = λ x. cc; on_disk = λ x. cc }

All-empty : (d : Disk) (k : ℕ) → All (Good d) (replicate k empty_buf)
All-empty d zero = tt
All-empty d (suc k) = (Good-empty d, All-empty d k)

find-empty : (t k : ℕ) → find_buf 1 t (replicate k empty_buf) ≡ none
unfolding find_buf
find-empty t zero = refl
find-empty t (suc k) = find-empty t k

Unique-empty : (k : ℕ) → Unique (replicate k empty_buf)
Unique-empty zero = tt
Unique-empty (suc k) = (λ e. find-empty 0 k, Unique-empty k)

pub binit-IsReady : (d : Disk) → IsReady (binit d)
unfolding binit free_count
binit-IsReady d = record {
  coherent = record { good = All-empty d nbuf; unique = Unique-empty nbuf };
  idle = λ t. ground (arith, find-empty t nbuf);
  room = omega arith;
}

pub binit-clean : (d : Disk) (t : ℕ) → dirty_at (binit d) t ≡ false
unfolding binit
binit-clean d t = ground (arith, find-empty t nbuf)

-- Recovery after a reboot on the disk `d`: it returns, and below the log the disk is `d` with the
-- blocks copied home that its header lists.
pub recovered :
    (d : Disk) (start size : ℕ)
    → Layout start (head_n d start) (head_list d start (replicate logsize 0)) d.disksize
    → let (r, s') = recover_from_log (rebooted d start size) in
      (r ≡ ok tt)
      × ((t : ℕ)
          → t < start
          → disk_read s'.cache.disk t
            ≡ disk_read
                (installed d start (head_list d start (replicate logsize 0)) (head_n d start))
                t)
unfolding binit
recovered d start size lay =
    let l =
      recover_from_log_lem (rebooted d start size)
        (record { ready = binit-IsReady d; dev = refl; clean = binit-clean d; layout = lay }) in
    (l.0, λ t h. rw (l.1) (let ne : (start == t) ≡ false = ground arith in rw ne refl))
