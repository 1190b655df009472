-- ===== src/Kernel/Log/Recover.antt =====
-- `recover_from_log` on an idle cache, as a function of what the disk holds.
use native.Mathlib.Decide.{ℕ_discrete}
use base_system.Base.{ℕ, ◌+◌, ◌≡◌, refl, ap, ◌∙◌, ◌≢◌, false, List, arith, get_or}
use base_system.Kernel.Action.{ok}
use base_system.Kernel.Bio.{Disk, Cache, disk_read, bread, brelse}
use base_system.Kernel.Bio.Wf.{dirty_at, busy_at, BreadDone, BrelseDone}
use base_system.Kernel.Bio.Total
use base_system.Kernel.Bio.Total.{brelse_total}
use base_system.Kernel.Bio.Bread.{bread_total}
use base_system.Kernel.Log.{
  System, rounds, head_sectors, put_head, write_head_at, install_from, recover_from_log,
}
use base_system.Kernel.Log.Steps.{IsReady, Stepped, Kept, Kept-Frame, Kept-trans, write_head_at_lem}
use base_system.Kernel.Log.Install.{Layout, Installed, installed, home_writes, install_from_lem}
use base_system.Kernel.Log.Commit.{with_head}

abbrev pub head_n : Disk → ℕ → ℕ
head_n d start = get_or (disk_read d start) 0 0

abbrev pub head_list : Disk → ℕ → List ℕ → List ℕ
head_list d start old = head_sectors (disk_read d start) (rounds (head_n d start)) 0 old

-- The cache is idle with no dirty block, as after boot, and the header on the disk fits.
pub record CanRecover (s : System) : Type 0 where
  pub ready : IsReady s.cache
  pub dev : s.log.dev ≡ 1
  pub clean : (t : ℕ) → dirty_at s.cache t ≡ false
  pub layout :
      Layout s.log.start
        (head_n s.cache.disk s.log.start)
        (head_list s.cache.disk s.log.start s.log.sector)
        s.cache.disk.disksize

module _ (s : System) (can : CanRecover s) where
  abbrev start : ℕ
  start = s.log.start

  abbrev d : Disk
  d = s.cache.disk

  abbrev n : ℕ
  n = head_n d start

  abbrev sector : List ℕ
  sector = head_list d start s.log.sector

  abbrev c1 : Cache
  c1 = (bread 1 start s.cache).1

  abbrev c2 : Cache
  c2 = (brelse 1 start c1).1

  opened : BreadDone start s.cache (bread 1 start s.cache)
  opened =
      bread_total start s.cache can.ready.coherent (can.ready.idle start)
        (omega (arith, can.ready.room)) (omega (arith, can.layout.region))

  released : BrelseDone start opened.buf c1 (brelse 1 start c1)
  released = brelse_total start c1 opened.buf opened.coherent opened.found opened.busy

  clean_head : opened.buf.dirty ≡ false
  clean_head = opened.dirty ∙ can.clean start

  kept : (t : ℕ) → t ≢ start → Kept s.cache c2 t
  kept t ne =
      Kept-trans s.cache c1 c2 t (Kept-Frame start t s.cache c1 opened.frame ne)
        (Kept-Frame start t c1 c2 released.frame ne)

  idle2 : (t : ℕ) → busy_at c2 t ≡ false
  idle2 t = elim (ℕ_discrete t start) [
    | yes e ↦ rw e (ground (arith, released.found))
    | no ne ↦ (kept t ne).busy ∙ can.ready.idle t
  ]

  clean2 : (t : ℕ) → dirty_at c2 t ≡ false
  clean2 t = elim (ℕ_discrete t start) [
    | yes e ↦ rw e (ground (arith, released.found, clean_head))
    | no ne ↦ (kept t ne).dirty ∙ can.clean t
  ]

  disk2 : c2.disk ≡ d
  disk2 = released.disk ∙ opened.disk

  ready2 : IsReady c2
  ready2 = record {
    coherent = released.coherent;
    idle = idle2;
    room = ground (arith, released.free, opened.free, clean_head, can.ready.room);
  }

  abbrev c3 : Cache
  c3 = (install_from 1 start sector n 0 c2).1

  abbrev c4 : Cache
  c4 = (write_head_at 1 start 0 sector c3).1

  second : Installed d start sector n c2 (install_from 1 start sector n 0 c2)
  unfolding home_writes
  second =
      install_from_lem d start n sector n 0 c2 can.layout (omega arith) ready2 disk2
        (λ j l. clean2 (start + j + 1))

  third :
      Stepped start
        (put_head 0 sector (disk_read c3.disk start))
        c3
        (write_head_at 1 start 0 sector c3)
  third =
      write_head_at_lem start 0 sector c3 second.ready
        (ground (arith, second.disk, can.layout.region)) (second.clean start (clean2 start))

  small : rounds n ≡ n
  small = ground (arith, can.layout.short)

  install_eq : install_from 1 start sector (rounds n) 0 c2 ≡ (ok tt, c3)
  install_eq = ap (λ k. install_from 1 start sector k 0 c2) small ∙ ground (arith, second.returned)

  recover_eq :
      recover_from_log s
      ≡ (ok tt, record { cache = c4; log = record s.log { n = 0; sector = sector } })
  unfolding recover_from_log
  recover_eq = rw (can.dev) (
      rw (opened.returned) (
        rw (Total.deref_eq start c1 opened.buf opened.coherent opened.found) (
          rw (opened.contents clean_head)
            (rw (released.returned) (rw install_eq (rw (third.returned) refl))))))

  disk_after : c4.disk ≡ with_head start 0 sector (installed d start sector n)
  disk_after = third.disk ∙ rw second.disk refl

  -- `recover_from_log`, where `CanRecover` holds, returns, having copied home every block that the
  -- header on the disk lists, and having cleared the header; it writes nothing else.
  pub recover_from_log_lem :
      let (r, s') = recover_from_log s in
      (r ≡ ok tt)
      × (s'.cache.disk ≡ with_head start 0 sector (installed d start sector n))
      × IsReady s'.cache
  recover_from_log_lem = rw recover_eq (refl, disk_after, third.ready)
