-- ===== src/Kernel/Log/Copy.antt =====
-- `copy_home` as one step: the home sector receives what the disk holds in the log block.
use native.Mathlib.Decide.{ℕ_discrete}
use base_system.Base.{ℕ, suc, ◌≤◌, ◌<◌, ◌≡◌, refl, sym, ◌≢◌, false, some, arith}
use base_system.Kernel.Action.{ok, ◌>>◌}
use base_system.Kernel.Bio.{Block, Cache, disk_read, find_buf, assign, bread, bwrite, brelse}
use base_system.Kernel.Bio.Bufs.{free_count}
use base_system.Kernel.Bio.Wf.{
  busy_at, dirty_at, Frame-held, Frame-busy, BreadDone, BwriteDone, BrelseDone,
}
use base_system.Kernel.Bio.Total
use base_system.Kernel.Bio.Total.{brelse_total}
use base_system.Kernel.Bio.Bwrite.{bwrite_total}
use base_system.Kernel.Bio.Bread.{bread_total}
use base_system.Kernel.Log.{copy_home}
use base_system.Kernel.Log.Steps.{IsReady, Stepped, Kept, Kept-Frame, Kept-trans}

module _ (src dst : ℕ) (c : Cache) (apart : src ≢ dst) (ready : IsReady c)
    (src_inside : src < c.disk.disksize) (dst_inside : dst < c.disk.disksize)
    (clean : dirty_at c src ≡ false) where
  abbrev c1 : Cache
  c1 = (bread 1 src c).1

  abbrev c2 : Cache
  c2 = (bread 1 dst c1).1

  abbrev v : Block
  v = disk_read c.disk src

  abbrev c3 : Cache
  c3 = ((assign (λ x. record x { contents = v }) 1 dst >> bwrite 1 dst) c2).1

  abbrev c4 : Cache
  c4 = (brelse 1 src c3).1

  abbrev c5 : Cache
  c5 = (brelse 1 dst c4).1

  back : dst ≢ src
  back e = apart (sym e)

  source : BreadDone src c (bread 1 src c)
  source = bread_total src c ready.coherent (ready.idle src) (omega (arith, ready.room)) src_inside

  home : BreadDone dst c1 (bread 1 dst c1)
  home =
      bread_total dst c1 source.coherent
        (ground (arith, Frame-busy src dst c c1 source.frame back, ready.idle dst))
        (omega (arith, ready.room, source.free)) (ground (arith, source.disk))

  -- The log block's buffer stays in use while the home buffer is fetched and written.
  held2 : find_buf 1 src c2.bufs ≡ some source.buf
  held2 = Frame-held dst src c1 c2 source.buf home.frame apart source.found source.busy

  filled : BwriteDone dst v c2 ((assign (λ x. record x { contents = v }) 1 dst >> bwrite 1 dst) c2)
  filled =
      bwrite_total dst c2 home.buf home.coherent home.found v home.busy
        (ground (arith, home.disk, source.disk))

  held3 : find_buf 1 src c3.bufs ≡ some source.buf
  held3 = Frame-held dst src c2 c3 source.buf filled.frame apart held2 source.busy

  source_back : BrelseDone src source.buf c3 (brelse 1 src c3)
  source_back = brelse_total src c3 source.buf filled.coherent held3 source.busy

  held4 : find_buf 1 dst c4.bufs ≡ some filled.buf
  held4 = Frame-held src dst c3 c4 filled.buf source_back.frame back filled.found filled.busy

  home_back : BrelseDone dst filled.buf c4 (brelse 1 dst c4)
  home_back = brelse_total dst c4 filled.buf source_back.coherent held4 filled.busy

  copy_home_eq : copy_home 1 src dst c ≡ (ok tt, c5)
  unfolding copy_home
  copy_home_eq = rw (source.returned) (
      rw (home.returned) (
        rw (Total.deref_eq src c2 source.buf home.coherent held2) (
          rw (source.contents (ground (arith, source.dirty))) (
            rw (filled.returned)
              (rw (source_back.returned) (ground (arith, home_back.returned)))))))

  kept : (t : ℕ) → t ≢ src → t ≢ dst → Kept c c5 t
  kept t ns nd = Kept-trans c c1 c5 t (Kept-Frame src t c c1 source.frame ns) (
      Kept-trans c1 c2 c5 t (Kept-Frame dst t c1 c2 home.frame nd) (
        Kept-trans c2 c3 c5 t (Kept-Frame dst t c2 c3 filled.frame nd) (
          Kept-trans c3 c4 c5 t (Kept-Frame src t c3 c4 source_back.frame ns)
            (Kept-Frame dst t c4 c5 home_back.frame nd))))

  -- The log block's buffer is back, and as clean as it was.
  at_src : Kept c4 c5 src
  at_src = Kept-Frame dst src c4 c5 home_back.frame apart

  idle_after : (t : ℕ) → busy_at c5 t ≡ false
  idle_after t = elim (ℕ_discrete t dst) [
    | yes e ↦ rw e (ground (arith, home_back.found))
    | no nd ↦ elim (ℕ_discrete t src) [
      | yes e ↦ rw e (ground (arith, at_src.busy, source_back.found))
      | no ns ↦ ground (arith, (kept t ns nd).busy, ready.idle t)
    ]
  ]

  others_after : (t : ℕ) → t ≢ dst → dirty_at c5 t ≡ dirty_at c t
  others_after t nd = elim (ℕ_discrete t src) [
    | yes e ↦ rw e (ground (arith, at_src.dirty, source_back.found, source.dirty))
    | no ns ↦ (kept t ns nd).dirty
  ]

  source_free : suc (free_count c3.bufs) ≡ free_count c4.bufs
  source_free = ground (arith, source_back.free, source.dirty)

  home_free : suc (free_count c4.bufs) ≡ free_count c5.bufs
  home_free = ground (arith, home_back.free, filled.dirty)

  room_after : 2 ≤ free_count c5.bufs
  room_after =
      omega (arith, source.free, home.free, filled.free, source_free, home_free, ready.room)

  -- A round of `install_trans` writes the disk's contents of the log block to the home sector.
  pub copy_home_lem : Stepped dst v c (copy_home 1 src dst c)
  copy_home_lem = rw copy_home_eq (record {
    returned = refl;
    ready = record { coherent = home_back.coherent; idle = idle_after; room = room_after };
    disk = ground (arith, home_back.disk, source_back.disk, filled.disk, home.disk, source.disk);
    clean = ground (arith, home_back.found, filled.dirty);
    others = others_after;
  })
