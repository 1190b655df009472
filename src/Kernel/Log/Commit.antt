-- ===== src/Kernel/Log/Commit.antt =====
-- `commit_trans` as a sequence of disk writes: the header, the home blocks, the cleared header.
use base_system.Base.{ℕ, ◌+◌, ◌^◌, ◌<◌, ◌≡◌, refl, ◌∙◌, true, false, List, ◌∷◌, arith, ltb, ◌&&◌}
use base_system.Kernel.Action.{ok}
use base_system.Kernel.Bio.{Block, Disk, Cache, disk_read}
use base_system.Kernel.Bio.Wf.{dirty_at}
use base_system.Kernel.Log.{System, rounds, put_head, write_head_at, install_from, commit_trans}
use base_system.Kernel.Log.Steps.{IsReady, Stepped, write_head_at_lem}
use base_system.Kernel.Log.Install.{Layout, Installed, installed, home_writes, install_from_lem}

abbrev pub push : ℕ → Block → Disk → Disk
push s v d = record d { writes = (s, v) ∷ d.writes }

-- The disk `d` after `write_head` with the given log.
abbrev pub with_head : ℕ → ℕ → List ℕ → Disk → Disk
with_head start n sector d = push start (put_head n sector (disk_read d start)) d

-- A transaction is open, the log blocks are on the disk, and no buffer is in use.
pub record CanCommit (s : System) : Type 0 where
  pub ready : IsReady s.cache
  pub dev : s.log.dev ≡ 1
  pub layout : Layout s.log.start s.log.n s.log.sector s.cache.disk.disksize
  pub some_block : 0 < s.log.n
  pub head_clean : dirty_at s.cache s.log.start ≡ false
  pub blocks_clean : (j : ℕ) → j < s.log.n → dirty_at s.cache (s.log.start + j + 1) ≡ false

module _ (s : System) (can : CanCommit s) where
  abbrev start : ℕ
  start = s.log.start

  abbrev n : ℕ
  n = s.log.n

  abbrev sector : List ℕ
  sector = s.log.sector

  abbrev pub committed : Disk
  committed = with_head start n sector s.cache.disk

  abbrev pub home : Disk
  home = installed committed start sector n

  abbrev pub cleared : Disk
  cleared = with_head start 0 sector home

  abbrev c1 : Cache
  c1 = (write_head_at 1 start n sector s.cache).1

  abbrev c2 : Cache
  c2 = (install_from 1 start sector n 0 c1).1

  abbrev c3 : Cache
  c3 = (write_head_at 1 start 0 sector c2).1

  first :
      Stepped start
        (put_head n sector (disk_read s.cache.disk start))
        s.cache
        (write_head_at 1 start n sector s.cache)
  first =
      write_head_at_lem start n sector s.cache can.ready (omega (arith, can.layout.region))
        can.head_clean

  clean1 : (j : ℕ) → j < n → dirty_at c1 (start + j + 1) ≡ false
  clean1 j l = first.others (start + j + 1) (omega arith) ∙ can.blocks_clean j l

  second : Installed committed start sector n c1 (install_from 1 start sector n 0 c1)
  unfolding home_writes
  second =
      install_from_lem committed start n sector n 0 c1 can.layout (omega arith) first.ready
        first.disk clean1

  third :
      Stepped start
        (put_head 0 sector (disk_read c2.disk start))
        c2
        (write_head_at 1 start 0 sector c2)
  third =
      write_head_at_lem start 0 sector c2 second.ready
        (ground (arith, second.disk, can.layout.region)) (second.clean start first.clean)

  small : (ltb 0 n && ltb n (2 ^ 31) ≡ true) × (rounds n ≡ n)
  small = ground (arith, can.layout.short, can.some_block)

  commit_eq :
      commit_trans s ≡ (ok tt, record { cache = c3; log = record s.log { n = 0; busy = false } })
  unfolding commit_trans
  commit_eq = rw (small.0) (
      rw (can.dev)
        (rw (first.returned) (rw (small.1) (rw (second.returned) (rw (third.returned) refl)))))

  disk_after : c3.disk ≡ cleared
  disk_after = third.disk ∙ (rw second.disk refl)

  -- `commit_trans`, where `CanCommit` holds, returns, and its disk writes are the header with the
  -- logged sectors, the home blocks in the order of the log, and the header with no sector; the log is
  -- empty and free again.
  pub commit_trans_lem :
      let (r, s') = commit_trans s in
      (r ≡ ok tt)
      × (s'.cache.disk ≡ cleared)
      × IsReady s'.cache
      × (s'.log ≡ record s.log { n = 0; busy = false })
  commit_trans_lem = rw commit_eq (refl, disk_after, third.ready, refl)
