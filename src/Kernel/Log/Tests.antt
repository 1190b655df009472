-- ===== src/Kernel/Log/Tests.antt =====
-- A transaction of one block on a disk of 100 sectors, its log at sector 50.
use base_system.Base.{
  ℕ, ◌+◌, ◌<◌, get_or, ◌++◌, ◌≡◌, refl, true, false, [], ◌∷◌, arith, replicate, length, ltb,
  if◌then◌else◌,
}
use base_system.Kernel.Action.{ok}
use base_system.Kernel.Bio.{
  Block, Disk, Cache, disk_read, binit, bread, find_buf, deref, recycle, update_buf, unlink, bwrite,
  brelse,
}
use base_system.Kernel.Bio.Bufs.{free_count}
use base_system.Kernel.Bio.Wf.{BreadDone}
use base_system.Kernel.Bio.Bread.{bread_total}
use base_system.Kernel.Log.{
  System, put_head, commit_trans, recover_from_log, write_head_at, copy_home, install_from,
  put_sectors,
}
use base_system.Kernel.Log.Steps.{IsReady}
use base_system.Kernel.Log.Commit.{CanCommit}
use base_system.Kernel.Log.Writes.{
  word, copies_home, commit_trans_writes, IsRecoverable, recover_from_log_writes,
}
use base_system.Kernel.Log.Boot.{rebooted, binit-IsReady, binit-clean}
use base_system.Kernel.Log.Replay.{crash}
use base_system.Kernel.Log.Atomic.{commit_atomic}

abbrev sevens : Block
sevens = replicate 128 7

abbrev small_disk : Disk
small_disk = record { disksize = 100; image = λ s. replicate 128 0; writes = (51, sevens) ∷ [] }

-- Block 5 is logged, and its new contents are in the first log block.
abbrev open_trans : System
open_trans = record {
  cache = binit small_disk;
  log = record { start = 50; size = 20; busy = true; dev = 1; n = 1; sector = 5 ∷ replicate 9 0 };
}

open_trans-CanCommit : CanCommit open_trans
unfolding binit
open_trans-CanCommit = record {
  ready = binit-IsReady small_disk;
  dev = refl;
  layout = record {
    short = omega arith;
    region = omega arith;
    homes = λ j h. let e : j ≡ 0 = omega arith in rw e (omega arith);
  };
  some_block = omega arith;
  head_clean = binit-clean small_disk 50;
  blocks_clean = λ j h. binit-clean small_disk (50 + j + 1);
}

commit_atomic_example :
    let after = (commit_trans open_trans).1.cache.disk in
    let (r, s') = recover_from_log (rebooted (crash 2 after) 50 20) in
    (length after.writes ≡ 1 + 2 + 1)
    × (r ≡ ok tt)
    × (disk_read s'.cache.disk 5 ≡ disk_read (if ltb 2 (1 + 2) then after else small_disk) 5)
unfolding binit
commit_atomic_example =
    commit_atomic open_trans open_trans-CanCommit refl 2 20 5 (omega arith) (omega arith) refl

-- The header is on the disk and the home block is not: the recovery copies it.
recovered_block :
    disk_read
      (recover_from_log
        (rebooted (crash 2 (commit_trans open_trans).1.cache.disk) 50 20)).1.cache.disk
      5
    ≡ sevens
unfolding commit_trans recover_from_log write_head_at install_from copy_home bread bwrite brelse
    deref binit find_buf recycle update_buf unlink put_head put_sectors
recovered_block = refl

commit_trans_writes_example :
    let (r, s') = commit_trans open_trans in
    (h : Block) × (c : Block) × (r ≡ ok tt)
    × (s'.cache.disk ≡ record small_disk {
      writes =
          (50, c) ∷ copies_home small_disk 50 (5 ∷ replicate 9 0) 1 ++ (50, h) ∷ small_disk.writes;
    })
    × (word h 0 ≡ 1)
    × ((j : ℕ) → j < 1 → word h (j + 1) ≡ get_or (5 ∷ replicate 9 0) j 0)
    × (word c 0 ≡ 0)
    × IsReady s'.cache
    × (s'.log ≡ record open_trans.log { n = 0; busy = false })
unfolding binit
commit_trans_writes_example = commit_trans_writes open_trans open_trans-CanCommit refl

-- A disk that a crash left with block 5 in the log and the header written.
abbrev crashed_disk : Disk
crashed_disk = record small_disk { writes = (50, 1 ∷ 5 ∷ replicate 126 0) ∷ (51, sevens) ∷ [] }

crashed-IsRecoverable : IsRecoverable (rebooted crashed_disk 50 20)
unfolding binit
crashed-IsRecoverable = record {
  ready = binit-IsReady crashed_disk;
  dev = refl;
  clean = binit-clean crashed_disk;
  entries = refl;
  length_head = refl;
  short = omega arith;
  region = omega arith;
  homes = λ j h. let e : j ≡ 0 = omega arith in rw e (omega arith);
}

recover_from_log_writes_example :
    let (r, s') = recover_from_log (rebooted crashed_disk 50 20) in
    (c : Block) × (r ≡ ok tt)
    × (s'.cache.disk ≡ record crashed_disk {
      writes = (50, c) ∷ copies_home crashed_disk 50 (5 ∷ replicate 126 0) 1 ++ crashed_disk.writes;
    })
    × (word c 0 ≡ 0)
    × IsReady s'.cache
unfolding binit
recover_from_log_writes_example =
    recover_from_log_writes (rebooted crashed_disk 50 20) crashed-IsRecoverable

-- The cache after block 5 was read.
abbrev with_block : Cache
with_block = (bread 1 5 (binit small_disk)).1

block_read : BreadDone 5 (binit small_disk) (bread 1 5 (binit small_disk))
block_read =
    bread_total 5 (binit small_disk) (binit-IsReady small_disk).coherent
      ((binit-IsReady small_disk).idle 5) (unfold binit free_count in omega arith)
      (unfold binit in omega arith)
