-- ===== src/Kernel/Log/Writes.antt =====
-- The disk writes of `commit_trans` and of `recover_from_log` of kernel/log.c, word by word in the header.
use base_system.Base.{
  ℕ, ◌+◌, ◌≤◌, ◌<◌, ◌≡◌, refl, sym, ◌∙◌, true, false, List, [], ◌∷◌, ◌++◌, arith, ◌==◌, get_or,
  drop, length,
}
use base_system.Kernel.Action.{ok}
use base_system.Kernel.Bio.{Block, Disk, disk_read}
use base_system.Kernel.Bio.Wf.{dirty_at}
use base_system.Kernel.Log.{System, logsize, rounds, put_head, commit_trans, recover_from_log}
use base_system.Kernel.Log.Header.{put_head-n, length-put_head, put_head-sectors, head_sectors-at}
use base_system.Kernel.Log.Steps.{IsReady}
use base_system.Kernel.Log.Install.{installed, home_writes, log_block, latest-home_writes_ne}
use base_system.Kernel.Log.Replay.{home_writes-cong}
use base_system.Kernel.Log.Commit.{CanCommit, commit_trans_lem, with_head}
use base_system.Kernel.Log.Recover.{CanRecover, head_list, recover_from_log_lem}

-- The word `i` of a block.
abbrev pub word : Block → ℕ → ℕ
word b i = get_or b i 0

-- The copies home of `n` log blocks of the disk `d`, newest first, to the sectors of a list.
abbrev pub copies_home : Disk → ℕ → List ℕ → ℕ → List (ℕ × Block)
copies_home d start sector n = home_writes (λ j. disk_read d (start + j + 1)) sector n

module _ (s : System) (can : CanCommit s)
    (length_head : length (disk_read s.cache.disk s.log.start) ≡ 128) where
  abbrev start : ℕ
  start = s.log.start

  abbrev n : ℕ
  n = s.log.n

  abbrev sector : List ℕ
  sector = s.log.sector

  abbrev d : Disk
  d = s.cache.disk

  abbrev head : Block
  head = put_head n sector (disk_read d start)

  abbrev committed : Disk
  committed = with_head start n sector d

  abbrev clear : Block
  clear = put_head 0 sector (disk_read (installed committed start sector n) start)

  same_copies : home_writes (log_block committed start) sector n ≡ copies_home d start sector n
  same_copies =
      home_writes-cong (log_block committed start) (λ j. disk_read d (start + j + 1)) sector sector
        n (λ j l. let ne : (start == start + j + 1) ≡ false = ground arith in rw ne refl)
        (λ j l. refl)

  -- `commit_trans` of a transaction of 1 to 10 blocks on device 1, where the log lies inside the disk
  -- above the home sector of each block, with a header block of 128 words, the header and the log blocks
  -- are clean in the cache, no buffer is in use and the cache has room: it returns, and what it writes
  -- to the disk is, in this order, a header with word 0 the number of the blocks and word j + 1 the home
  -- sector of block j; each log block to its home sector, in the order of the log; and a header with
  -- word 0 zero. The log is empty and free afterwards, and the cache is as ready as before.
  pub commit_trans_writes :
      let (r, s') = commit_trans s in
      (h : Block) × (c : Block) × (r ≡ ok tt)
      × (s'.cache.disk ≡ record d {
        writes = (start, c) ∷ copies_home d start sector n ++ (start, h) ∷ d.writes;
      })
      × (word h 0 ≡ n)
      × ((j : ℕ) → j < n → word h (j + 1) ≡ get_or sector j 0)
      × (word c 0 ≡ 0)
      × IsReady s'.cache
      × (s'.log ≡ record s.log { n = 0; busy = false })
  commit_trans_writes =
      let (e, w, ready, log) = commit_trans_lem s can in
      let at_head : disk_read (installed committed start sector n) start ≡ head =
        latest-home_writes_ne d.image committed.writes (log_block committed start) sector n start
          (λ j h. omega (arith, can.layout.homes j h))
        ∙ let own : (start == start) ≡ true = ground arith in rw own refl in
      (
        head,
        clear,
        e,
        w ∙ rw same_copies refl,
        put_head-n n sector (disk_read d start) (omega (arith, length_head)),
        λ j l. put_head-sectors n sector (disk_read d start) j can.layout.short length_head l,
        put_head-n 0 sector (disk_read (installed committed start sector n) start)
            (rw at_head (omega (arith, length-put_head n sector (disk_read d start), length_head))),
        ready,
        log,
      )

-- The state in which the recovery is called: the cache idle with no dirty block, the log header of 128
-- words with a count of 10 at most in word 0 and with home sectors below the log in the words after it.
pub record IsRecoverable (s : System) : Type 0 where
  pub ready : IsReady s.cache
  pub dev : s.log.dev ≡ 1
  pub clean : (t : ℕ) → dirty_at s.cache t ≡ false
  pub entries : length s.log.sector ≡ logsize
  pub length_head : length (disk_read s.cache.disk s.log.start) ≡ 128
  pub short : word (disk_read s.cache.disk s.log.start) 0 ≤ logsize
  pub region : s.log.start + logsize < s.cache.disk.disksize
  pub homes :
      (j : ℕ)
      → j < word (disk_read s.cache.disk s.log.start) 0
      → word (disk_read s.cache.disk s.log.start) (j + 1) < s.log.start

get_or-drop_one : (b : Block) (j : ℕ) → get_or (drop 1 b) j 0 ≡ get_or b (j + 1) 0
get_or-drop_one [] j = ground arith
get_or-drop_one (x ∷ b) j = ground arith

module _ (s : System) (can : IsRecoverable s) where
  abbrev head_block : Block
  head_block = disk_read s.cache.disk s.log.start

  abbrev listed : List ℕ
  listed = head_list s.cache.disk s.log.start s.log.sector

  listed_words : (j : ℕ) → j < word head_block 0 → get_or listed j 0 ≡ word head_block (j + 1)
  listed_words j l =
      let small : rounds (word head_block 0) ≡ word head_block 0 = ground (arith, can.short) in
      rw small (
        head_sectors-at head_block (word head_block 0) 0 j s.log.sector (omega arith) (omega arith)
          (omega (arith, can.entries, can.short)))

  can_recover : CanRecover s
  can_recover = record {
    ready = can.ready;
    dev = can.dev;
    clean = can.clean;
    layout = record {
      short = can.short;
      region = can.region;
      homes = λ j l. omega (arith, listed_words j l, can.homes j l);
    };
  }

  same_words :
      home_writes (log_block s.cache.disk s.log.start) listed (word head_block 0)
      ≡ copies_home s.cache.disk s.log.start (drop 1 head_block) (word head_block 0)
  same_words =
      home_writes-cong (log_block s.cache.disk s.log.start)
        (λ j. disk_read s.cache.disk (s.log.start + j + 1)) listed (drop 1 head_block)
        (word head_block 0) (λ j l. refl)
        (λ j l. listed_words j l ∙ sym (get_or-drop_one head_block j))

  -- `recover_from_log` on device 1 with the cache idle, clean and with room, and a log header of 128
  -- words on the disk that lists at most 10 blocks, each with its home below the log, which is inside
  -- the disk: it returns and what it writes to the disk is, in this order, each log block j below word 0
  -- of the header to the sector that word j + 1 of the header gives, and a header with word 0 zero. The
  -- cache is as ready as before.
  pub recover_from_log_writes :
      let (r, s') = recover_from_log s in
      let d = s.cache.disk in
      (c : Block) × (r ≡ ok tt)
      × (s'.cache.disk ≡ record d {
        writes =
            (s.log.start, c)
              ∷ copies_home d s.log.start
                  (drop 1 (disk_read d s.log.start))
                  (word (disk_read d s.log.start) 0)
            ++ d.writes;
      })
      × (word c 0 ≡ 0)
      × IsReady s'.cache
  recover_from_log_writes =
      let d = s.cache.disk in
      let (e, w, ready) = recover_from_log_lem s can_recover in
      let after = installed d s.log.start listed (word head_block 0) in
      let at_head : disk_read after s.log.start ≡ head_block =
        latest-home_writes_ne d.image d.writes (log_block d s.log.start) listed (word head_block 0)
          s.log.start (λ j h. omega (arith, can_recover.layout.homes j h)) in
      (
        put_head 0 listed (disk_read after s.log.start),
        e,
        w ∙ rw same_words refl,
        put_head-n 0 listed (disk_read after s.log.start)
            (rw at_head (omega (arith, can.length_head))),
        ready,
      )
