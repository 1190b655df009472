-- ===== src/Kernel/Log/Steps.antt =====
-- The two kinds of disk update that kernel/log.c makes, as steps of an idle, coherent cache.
use base_system.Base.{ℕ, ◌≤◌, ◌<◌, ◌≡◌, refl, ◌≢◌, false, List, ◌∷◌, arith}
use native.Mathlib.Decide.{ℕ_discrete}
use base_system.Kernel.Action.{Result, ok, ◌>>◌}
use base_system.Kernel.Bio.{Block, Cache, assign, disk_read, bread, bwrite, brelse}
use base_system.Kernel.Bio.Bufs.{free_count}
use base_system.Kernel.Bio.Wf.{
  IsCoherent, busy_at, dirty_at, Frame, Frame-busy, Frame-dirty, BreadDone, BwriteDone, BrelseDone,
}
use base_system.Kernel.Bio.Total
use base_system.Kernel.Bio.Total.{brelse_total}
use base_system.Kernel.Bio.Bwrite.{bwrite_total}
use base_system.Kernel.Bio.Bread.{bread_total}
use base_system.Kernel.Log.{put_head, write_head_at}

-- No buffer is in use, and two are to spare.
pub record IsReady (c : Cache) : Type 0 where
  pub coherent : IsCoherent c
  pub idle : (t : ℕ) → busy_at c t ≡ false
  pub room : 2 ≤ free_count c.bufs

-- The step returned, wrote `v` to the sector `h` of the disk and nothing else, and no other sector
-- became dirty or clean.
pub record Stepped (h : ℕ) (v : Block) (c : Cache) (out : Result (Unit {0}) × Cache) : Type 0 where
  pub returned : out.0 ≡ ok tt
  pub ready : IsReady out.1
  pub disk : out.1.disk ≡ record c.disk { writes = (h, v) ∷ c.disk.writes }
  pub clean : dirty_at out.1 h ≡ false
  pub others : (t : ℕ) → t ≢ h → dirty_at out.1 t ≡ dirty_at c t

-- The busy and dirty marks of a sector that none of a step's calls was about.
pub record Kept (c c' : Cache) (t : ℕ) : Type 0 where
  pub busy : busy_at c' t ≡ busy_at c t
  pub dirty : dirty_at c' t ≡ dirty_at c t

pub Kept-Frame : (s t : ℕ) (c c' : Cache) → Frame s c c' → t ≢ s → Kept c c' t
Kept-Frame s t c c' f ne = record {
  busy = Frame-busy s t c c' f ne;
  dirty = Frame-dirty s t c c' f ne;
}

pub Kept-trans : (a b c : Cache) (t : ℕ) → Kept a b t → Kept b c t → Kept a c t
Kept-trans a b c t h k = record { busy = cc (h.busy, k.busy); dirty = cc (h.dirty, k.dirty) }

module _ (start n : ℕ) (sector : List ℕ) (c : Cache) (ready : IsReady c)
    (inside : start < c.disk.disksize) (clean : dirty_at c start ≡ false) where
  abbrev c1 : Cache
  c1 = (bread 1 start c).1

  abbrev v : Block
  v = put_head n sector (disk_read c.disk start)

  abbrev c2 : Cache
  c2 = ((assign (λ x. record x { contents = v }) 1 start >> bwrite 1 start) c1).1

  abbrev c3 : Cache
  c3 = (brelse 1 start c2).1

  opened : BreadDone start c (bread 1 start c)
  opened = bread_total start c ready.coherent (ready.idle start) (omega (arith, ready.room)) inside

  filled :
      BwriteDone start v c1 ((assign (λ x. record x { contents = v }) 1 start >> bwrite 1 start) c1)
  filled =
      bwrite_total start c1 opened.buf opened.coherent opened.found v opened.busy
        (ground (arith, opened.disk))

  released : BrelseDone start filled.buf c2 (brelse 1 start c2)
  released = brelse_total start c2 filled.buf filled.coherent filled.found filled.busy

  write_head_at_eq : write_head_at 1 start n sector c ≡ (ok tt, c3)
  unfolding write_head_at
  write_head_at_eq = rw (opened.returned) (
      rw (Total.deref_eq start c1 opened.buf opened.coherent opened.found) (
        rw (opened.contents (ground (arith, opened.dirty)))
          (rw (filled.returned) (ground (arith, released.returned)))))

  kept : (t : ℕ) → t ≢ start → Kept c c3 t
  kept t ne = Kept-trans c c1 c3 t (Kept-Frame start t c c1 opened.frame ne) (
      Kept-trans c1 c2 c3 t (Kept-Frame start t c1 c2 filled.frame ne)
        (Kept-Frame start t c2 c3 released.frame ne))

  pub write_head_at_lem : Stepped start v c (write_head_at 1 start n sector c)
  write_head_at_lem = rw write_head_at_eq (record {
    returned = refl;
    ready = record {
      coherent = released.coherent;
      idle = λ t. elim (ℕ_discrete t start) [
        | yes e ↦ rw e (ground (arith, released.found))
        | no ne ↦ ground (arith, (kept t ne).busy, ready.idle t)
      ];
      room = ground (arith, opened.free, filled.free, released.free, filled.dirty, ready.room);
    };
    disk = ground (arith, released.disk, filled.disk, opened.disk);
    clean = ground (arith, released.found, filled.dirty);
    others = λ t ne. (kept t ne).dirty;
  })
