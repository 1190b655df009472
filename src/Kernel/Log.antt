-- ===== src/Kernel/Log.antt =====
-- kernel/log.c: the physical redo log that makes a transaction's block writes atomic.
pub mod Header
pub mod Steps
pub mod Copy
pub mod Install
pub mod Replay
pub mod Commit
pub mod Recover
pub mod Writes
pub mod Boot
pub mod Atomic
mod Tests
use base_system.Base.{
  ℕ, zero, suc, ◌+◌, ◌-◌, ◌^◌, Bool, true, false, not, ◌&&◌, ◌||◌, List, [], ◌∷◌, ltb, leb, ◌==◌,
  if◌then◌else◌, get_or, set,
}
use base_system.Kernel.Action.{Action, ok, panic, sleeps, ◌>>=◌, ◌>>◌, pure, gets, modify, panic_if}
use base_system.Kernel.Bio.{Block, Buf, Cache, deref, assign, bread, bwrite, brelse}

abbrev pub logsize : ℕ
logsize = 10

-- `struct log`, with the `struct logheader` in it: `n` and the array `sector` of `logsize` numbers.
pub record Log : Type 0 where
  pub start : ℕ
  pub size : ℕ
  pub busy : Bool
  pub dev : ℕ
  pub n : ℕ
  pub sector : List ℕ

pub record System : Type 0 where
  pub cache : Cache
  pub log : Log

abbrev pub on_cache : {A : Type 0} → Action Cache A → Action System A
on_cache m s = let (r, c) = m s.cache in (r, record s { cache = c })

-- The rounds of `for (i = 0; i < n; i++)` for an `int` read from the disk as the word `n`.
abbrev pub rounds : ℕ → ℕ
rounds n = if ltb n (2 ^ 31) then n else 0

-- The body of the loop of `install_trans`: copy the log block `src` to its home `dst`.
unfoldable pub copy_home : ℕ → ℕ → ℕ → Action Cache (Unit {0})
copy_home dev src dst = do
  bread dev src
  bread dev dst
  lbuf ← deref dev src
  assign (λ x. record x { contents = lbuf.contents }) dev dst
  bwrite dev dst
  brelse dev src
  brelse dev dst

-- The loop of `install_trans` with `k` rounds left.
unfoldable pub install_from : ℕ → ℕ → List ℕ → ℕ → ℕ → Action Cache (Unit {0})
install_from dev start sector zero tail = pure tt
install_from dev start sector (suc k) tail = do
  copy_home dev (start + tail + 1) (get_or sector tail 0)
  install_from dev start sector k (tail + 1)

pub install_trans : Action System (Unit {0})
install_trans s = on_cache (install_from s.log.dev s.log.start s.log.sector (rounds s.log.n) 0) s

-- `log.lh.sector[i] = lh->sector[i]` for `k` values of `i`. The header is words 0, 1, 2, ... of its
-- block: `n`, then the sectors.
unfoldable pub head_sectors : Block → ℕ → ℕ → List ℕ → List ℕ
head_sectors lh zero i sector = sector
head_sectors lh (suc k) i sector = head_sectors lh k (i + 1) (set sector i (get_or lh (i + 1) 0))

pub read_head : Action System (Unit {0})
unfolding head_sectors
read_head = do
  lg ← gets (λ s. s.log)
  on_cache (bread lg.dev lg.start)
  buf ← on_cache (deref lg.dev lg.start)
  let n = get_or buf.contents 0 0
  modify (λ s. record s {
    log = record s.log { n = n; sector = head_sectors buf.contents (rounds n) 0 s.log.sector };
  })
  on_cache (brelse lg.dev lg.start)

-- `hb->sector[i] = log.lh.sector[i]` for `k` values of `i`.
unfoldable pub put_sectors : List ℕ → ℕ → ℕ → Block → Block
put_sectors sector zero i hb = hb
put_sectors sector (suc k) i hb = put_sectors sector k (i + 1) (set hb (i + 1) (get_or sector i 0))

unfoldable pub put_head : ℕ → List ℕ → Block → Block
put_head n sector hb = put_sectors sector (rounds n) 0 (set hb 0 n)

unfoldable pub write_head_at : ℕ → ℕ → ℕ → List ℕ → Action Cache (Unit {0})
write_head_at dev start n sector = do
  bread dev start
  buf ← deref dev start
  assign (λ x. record x { contents = put_head n sector buf.contents }) dev start
  bwrite dev start
  brelse dev start

pub write_head : Action System (Unit {0})
write_head s = on_cache (write_head_at s.log.dev s.log.start s.log.n s.log.sector) s

abbrev set_n : ℕ → System → System
set_n n s = record s { log = record s.log { n = n } }

unfoldable pub recover_from_log : Action System (Unit {0})
unfolding read_head install_trans write_head
recover_from_log = do read_head; install_trans; modify (set_n 0); write_head

-- It sleeps on `&log` while another transaction is active, and looks again when woken.
unfoldable pub begin_trans : Action System (Unit {0})
begin_trans s =
    if s.log.busy then (sleeps, s) else (ok tt, record s { log = record s.log { busy = true } })

unfoldable pub commit_trans : Action System (Unit {0})
unfolding install_trans write_head
commit_trans = do
  n ← gets (λ s. s.log.n)
  if ltb 0 n && ltb n (2 ^ 31)
      then (do write_head; install_trans; modify (set_n 0); write_head)
      else pure tt
  modify (λ s. record s { log = record s.log { busy = false } })

-- The slot of a sector in the log: where it is already, or the end (`k` slots are left to look at).
unfoldable pub slot_from : ℕ → List ℕ → ℕ → ℕ → ℕ
slot_from target sector zero i = i
slot_from target sector (suc k) i =
    let rest = slot_from target sector k (i + 1) in if get_or sector i 0 == target then i else rest

-- `log_write` of the buffer of `target` on device `dev`.
unfoldable pub log_write : ℕ → ℕ → Action System (Unit {0})
unfolding slot_from
log_write dev target = do
  lg ← gets (λ s. s.log)
  panic_if (leb logsize lg.n || leb (lg.size - 1) lg.n)
  panic_if (not lg.busy)
  let i = slot_from target lg.sector lg.n 0
  modify (λ s. record s { log = record s.log { sector = set s.log.sector i target } })
  on_cache (bread dev (lg.start + i + 1))
  b ← on_cache (deref dev target)
  on_cache (assign (λ x. record x { contents = b.contents }) dev (lg.start + i + 1))
  on_cache (bwrite dev (lg.start + i + 1))
  on_cache (brelse dev (lg.start + i + 1))
  modify (λ s. record s { log = record s.log { n = if i == lg.n then lg.n + 1 else lg.n } })
  on_cache (assign (λ x. record x { dirty = true }) dev target)
