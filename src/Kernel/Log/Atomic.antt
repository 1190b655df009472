-- ===== src/Kernel/Log/Atomic.antt =====
-- A crash during `commit_trans` of kernel/log.c, and the recovery at the next boot.
use native.Mathlib.Decide.{ℕ_discrete}
use base_system.Base.{
  ℕ, zero, suc, ◌+◌, ◌-◌, ◌≤◌, ◌<◌, ◌≡◌, refl, ap, sym, ◌∙◌, true, false, List, arith, ◌==◌, ltb,
  if◌then◌else◌, replicate, get_or, length, length-append,
}
use base_system.Kernel.Action.{ok}
use base_system.Kernel.Bio.{Block, Disk, disk_read}
use base_system.Kernel.Log.{
  System, logsize, rounds, head_sectors, put_head, commit_trans, recover_from_log,
}
use base_system.Kernel.Log.Header.{put_head-n, length-put_head, head_roundtrip}
use base_system.Kernel.Log.Install.{
  Layout, installed, home_writes, log_block, latest-home_writes_ne, log_block-installed,
}
use base_system.Kernel.Log.Replay.{
  crash, latest_replay, drop-home_writes, length-home_writes, drop-all, home_writes-cong,
}
use base_system.Kernel.Log.Commit
use base_system.Kernel.Log.Commit.{CanCommit, with_head, commit_trans_lem}
use base_system.Kernel.Log.Recover.{head_n, head_list}
use base_system.Kernel.Log.Boot.{rebooted, recovered}

abbrev blank : List ℕ
blank = replicate logsize 0

-- With an empty header the recovery changes nothing below the log.
recovered_nothing :
    (d : Disk) (start size : ℕ)
    → start + logsize < d.disksize
    → head_n d start ≡ 0
    → let (r, s') = recover_from_log (rebooted d start size) in
      (r ≡ ok tt) × ((t : ℕ) → t < start → disk_read s'.cache.disk t ≡ disk_read d t)
recovered_nothing d start size region empty =
    let l = recovered d start size (
      rw empty
        (record { short = omega arith; region = region; homes = λ j h. absurd (omega arith) })) in
    (
      l.0,
      λ t h.
          l.1 t h
          ∙ latest-home_writes_ne d.image d.writes (log_block d start) (head_list d start blank)
              (head_n d start) t (λ j k. absurd (omega (arith, empty))),
    )

module _ (s : System) (can : CanCommit s)
    (length_head : length (disk_read s.cache.disk s.log.start) ≡ 128) where
  abbrev start : ℕ
  start = s.log.start

  abbrev n : ℕ
  n = s.log.n

  abbrev sector : List ℕ
  sector = s.log.sector

  abbrev head : Block
  head = put_head n sector (disk_read s.cache.disk start)

  abbrev committed : Disk
  committed = Commit.committed s can

  -- The disk after the header and `m` home blocks.
  abbrev partial : ℕ → Disk
  partial m = installed committed start sector m

  head-committed : disk_read committed start ≡ head
  head-committed = let e : (start == start) ≡ true = ground arith in rw e refl

  head-partial : (m : ℕ) → m ≤ n → disk_read (partial m) start ≡ head
  head-partial m l =
      latest-home_writes_ne s.cache.disk.image committed.writes (log_block committed start) sector m
        start (λ j h. omega (arith, can.layout.homes j (omega arith)))
      ∙ head-committed

  short : n ≤ logsize
  short = can.layout.short

  head_n-partial : (m : ℕ) → m ≤ n → head_n (partial m) start ≡ n
  head_n-partial m l =
      ap (λ (b : Block). get_or b 0 0) (head-partial m l)
      ∙ put_head-n n sector (disk_read s.cache.disk start) (omega (arith, length_head))

  -- The recovery reads back the sectors of the transaction.
  head_list-partial :
      (m : ℕ)
      → m ≤ n
      → (j : ℕ) → j < n
      → get_or (head_list (partial m) start blank) j 0 ≡ get_or sector j 0
  head_list-partial m l j h =
      ap (λ (b : Block). get_or (head_sectors b (rounds (get_or b 0 0)) 0 blank) j 0)
        (head-partial m l)
      ∙ (rw (put_head-n n sector (disk_read s.cache.disk start) (omega (arith, length_head)))
          (head_roundtrip n sector blank (disk_read s.cache.disk start) j short refl length_head h))

  Layout-partial :
      (m : ℕ)
      → m ≤ n
      → Layout start
          (head_n (partial m) start)
          (head_list (partial m) start blank)
          s.cache.disk.disksize
  Layout-partial m l = record {
    short = omega (arith, head_n-partial m l, short);
    region = can.layout.region;
    homes = λ j h.
        let below : j < n = omega (arith, head_n-partial m l) in
        omega (arith, head_list-partial m l j below, can.layout.homes j below);
  }

  -- The home blocks that the recovery writes are those of the transaction.
  same_writes :
      (m : ℕ)
      → m ≤ n
      → home_writes
          (log_block (partial m) start)
          (head_list (partial m) start blank)
          (head_n (partial m) start)
        ≡ home_writes (log_block committed start) sector n
  same_writes m l =
      ap (home_writes (log_block (partial m) start) (head_list (partial m) start blank))
        (head_n-partial m l)
      ∙ home_writes-cong (log_block (partial m) start) (log_block committed start)
          (head_list (partial m) start blank) sector n
          (λ j h.
            log_block-installed committed start sector m j
              (λ i k. can.layout.homes i (omega arith)))
          (λ j h. head_list-partial m l j h)

  -- From any part of the installation the recovery gives the whole of it.
  recovered_partial :
      (m size : ℕ)
      → m ≤ n
      → let (r, s') = recover_from_log (rebooted (partial m) start size) in
        (r ≡ ok tt) × ((t : ℕ) → t < start → disk_read s'.cache.disk t ≡ disk_read (partial n) t)
  recovered_partial m size l =
      let w = recovered (partial m) start size (Layout-partial m l) in
      (
        w.0,
        λ t h.
            w.1 t h
            ∙ (rw (same_writes m l) (
                latest_replay s.cache.disk.image (log_block committed start) sector committed.writes
                  t n m l)),
      )

  abbrev cleared : Disk
  cleared = Commit.cleared s can

  below_cleared : (t : ℕ) → t < start → disk_read cleared t ≡ disk_read (partial n) t
  below_cleared t h = let ne : (start == t) ≡ false = ground arith in rw ne refl

  head_n-cleared : head_n cleared start ≡ 0
  head_n-cleared =
      let e : (start == start) ≡ true = ground arith in
      rw e (
        put_head-n 0 sector (disk_read (partial n) start) (
          rw (head-partial n (omega arith))
            (omega (arith, length-put_head n sector (disk_read s.cache.disk start), length_head))))

  crash-partial : (j : ℕ) → j ≤ n → crash (suc j) cleared ≡ partial (n - j)
  crash-partial j l =
      rw
        (drop-home_writes s.cache.disk.image (log_block committed start) sector committed.writes n j
          l)
        refl

  crash_all : crash (suc (n + 1)) cleared ≡ s.cache.disk
  crash_all =
      rw
        (drop-all s.cache.disk.image (log_block committed start) sector (start, head)
          s.cache.disk.writes n)
        refl

  abbrev Recovers : ℕ → Disk → Disk → Type 0
  Recovers size d like =
      let (r, s') = recover_from_log (rebooted d start size) in
      (r ≡ ok tt) × ((t : ℕ) → t < start → disk_read s'.cache.disk t ≡ disk_read like t)

  Recovers-after : (j size : ℕ) → j ≤ n → Recovers size (crash (suc j) cleared) cleared
  Recovers-after j size l = rw (crash-partial j l) (
      let w = recovered_partial (n - j) size (omega arith) in
      (w.0, λ t h. w.1 t h ∙ sym (below_cleared t h)))

  recovers :
      (k size : ℕ)
      → k ≤ n + 2
      → head_n s.cache.disk start ≡ 0
      → Recovers size (crash k cleared) (if ltb k (n + 2) then cleared else s.cache.disk)
  recovers zero size l empty =
      let e : ltb 0 (n + 2) ≡ true = ground arith in
      rw e (recovered_nothing cleared start size can.layout.region head_n-cleared)
  recovers (suc j) size l empty = elim (ℕ_discrete j (n + 1)) [
    | yes p ↦
        let e : ltb (suc j) (n + 2) ≡ false = ground arith in
        rw e
          (rw p (rw crash_all (recovered_nothing s.cache.disk start size can.layout.region empty)))
    | no p ↦
        let e : ltb (suc j) (n + 2) ≡ true = ground arith in
        rw e (Recovers-after j size (omega arith))
  ]

  length-cleared : length cleared.writes ≡ n + 2 + length s.cache.disk.writes
  length-cleared = omega (
    arith,
    length-append (home_writes (log_block committed start) sector n) committed.writes,
    length-home_writes s.cache.disk.image (log_block committed start) sector n,
  )

  -- If the machine stops at any moment of a commit, that is with the last `k` of its `n + 2` sector
  -- writes lost, and reboots, then the recovery returns and below the log every sector holds what it
  -- holds after the whole commit, unless all the writes are lost: then it holds what it held before.
  pub commit_atomic :
      (k size t : ℕ)
      → k ≤ n + 2
      → t < start
      → head_n s.cache.disk start ≡ 0
      → let after = (commit_trans s).1.cache.disk in
        let (r, s') = recover_from_log (rebooted (crash k after) start size) in
        (length after.writes ≡ n + 2 + length s.cache.disk.writes)
        × (r ≡ ok tt)
        × (disk_read s'.cache.disk t ≡ disk_read (if ltb k (n + 2) then after else s.cache.disk) t)
  commit_atomic k size t l below empty =
      rw ((commit_trans_lem s can).1)
        (let r = recovers k size l empty in (length-cleared, r.0, r.1 t below))
