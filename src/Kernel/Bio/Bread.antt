-- ===== src/Kernel/Bio/Bread.antt =====
-- `bread` on a coherent cache with a buffer to spare.
use base_system.Base.{
  ℕ, suc, ◌≤◌, ◌<◌, ◌≡◌, refl, true, false, none, some, arith, Bool-cases, Option-cases, inl, inr,
}
use base_system.Kernel.Action.{ok}
use base_system.Kernel.Bio.{Buf, Disk, Cache, find_buf, update_buf, bget, bread}
use base_system.Kernel.Bio.Bufs.{
  free_count, free_count-update, find-update_self, find-update_ne, KeepsKey,
}
use base_system.Kernel.Bio.Lru.{
  given, recycle_total, All-recycle, Unique-recycle, find-recycle_self, find-recycle_ne,
  free_count-recycle,
}
use base_system.Kernel.Bio.Wf.{Good, IsCoherent, busy_at, dirty_at, Frame, BreadDone}
use base_system.Kernel.Bio.Total

-- `bget` returned a buffer in use for `s`, either the old one or a recycled one that is not valid.
record BgetDone (s : ℕ) (c : Cache) : Type 0 where
  after : Cache
  buf : Buf
  returned : bget 1 s c ≡ (ok tt, after)
  found : find_buf 1 s after.bufs ≡ some buf
  busy : buf.busy ≡ true
  dirty : buf.dirty ≡ dirty_at c s
  coherent : IsCoherent after
  disk : after.disk ≡ c.disk
  free : free_count c.bufs ≤ suc (free_count after.bufs)
  frame : Frame s c after

Good-given : (d : Disk) (s : ℕ) (b : Buf) → Good d b → Good d (given s b)
Good-given d s b g = record { clean = λ x. cc; pinned = λ x. cc; on_disk = λ x. refl }

abbrev taken : Buf → Buf
taken x = record x { busy = true }

taken-KeepsKey : KeepsKey taken
taken-KeepsKey = record { dev = λ x. refl; sector = λ x. refl }

module _ (s : ℕ) (c : Cache) (coherent : IsCoherent c) where
  bget_cached : (b : Buf) → find_buf 1 s c.bufs ≡ some b → b.busy ≡ false → BgetDone s c
  unfolding bget
  bget_cached b found idle = record {
    after = record c { bufs = update_buf taken 1 s c.bufs };
    buf = taken b;
    returned = ground arith;
    found = find-update_self taken s c.bufs b taken-KeepsKey found;
    busy = refl;
    dirty = ground arith;
    coherent =
        let g = (Total.place s c b coherent found).0 in
        Total.IsCoherent-changed s c b coherent found taken taken-KeepsKey
          (record { clean = g.clean; pinned = g.pinned; on_disk = g.on_disk });
    disk = refl;
    free = ground (arith, free_count-update taken s c.bufs b found);
    frame = Total.Frame-changed s c b coherent found taken taken-KeepsKey;
  }

  bget_recycled : find_buf 1 s c.bufs ≡ none → 1 ≤ free_count c.bufs → BgetDone s c
  unfolding bget
  bget_recycled absent room =
      let (bs, e) = recycle_total s c.bufs room in
      let (b, e2) = find-recycle_self s c.bufs bs absent e in
      record {
        after = record c { bufs = bs };
        buf = given s b;
        returned = ground (arith, e, absent);
        found = e2;
        busy = refl;
        dirty = ground (arith, absent);
        coherent = record {
          good = All-recycle (Good c.disk) s c.bufs bs (Good-given c.disk s) coherent.good e;
          unique = Unique-recycle s c.bufs bs coherent.unique absent e;
        };
        disk = refl;
        free = omega (arith, free_count-recycle s c.bufs bs e);
        frame = record { others = λ t ne. find-recycle_ne s t c.bufs bs ne coherent.unique e };
      }

  bget_total : busy_at c s ≡ false → 1 ≤ free_count c.bufs → BgetDone s c
  bget_total idle room = elim (Option-cases (find_buf 1 s c.bufs)) [
    | inl absent ↦ bget_recycled absent room
    | inr (b, found) ↦ bget_cached b found (ground (arith, found))
  ]

  bread_valid : (g : BgetDone s c) → g.buf.valid ≡ true → BreadDone s c (bread 1 s c)
  unfolding bread
  bread_valid g v = rw g.returned (
      rw (Total.deref_eq s g.after g.buf g.coherent g.found) (
        rw v (record {
          buf = g.buf;
          returned = refl;
          found = g.found;
          busy = g.busy;
          valid = v;
          dirty = g.dirty;
          contents = λ d.
              let p = Total.place s g.after g.buf g.coherent g.found in
              ground (arith, p.0.clean v d, p.2, g.disk);
          coherent = g.coherent;
          disk = g.disk;
          free = g.free;
          frame = g.frame;
        })))

  bread_load :
      (g : BgetDone s c) → g.buf.valid ≡ false → s < c.disk.disksize → BreadDone s c (bread 1 s c)
  unfolding bread
  bread_load g v h =
      let p = Total.place s g.after g.buf g.coherent g.found in
      let clean : g.buf.dirty ≡ false = ground (arith, p.0.pinned) in
      let f = Total.loaded s g.after g.buf g.coherent g.found in
      let k : KeepsKey f = record { dev = λ x. refl; sector = λ x. refl } in
      rw g.returned (
        rw (Total.deref_eq s g.after g.buf g.coherent g.found) (
          rw v (
            rw
              (Total.memiderw_load s g.after g.buf g.coherent g.found g.busy v clean
                (ground (arith, g.disk)))
              (record {
                buf = f g.buf;
                returned = refl;
                found = find-update_self f s g.after.bufs g.buf k g.found;
                busy = g.busy;
                valid = refl;
                dirty = g.dirty;
                contents = λ d. ground (arith, g.disk);
                coherent = Total.IsCoherent-changed s g.after g.buf g.coherent g.found f k (record {
                  clean = λ x y. ground (arith, p.2);
                  pinned = λ x. refl;
                  on_disk = λ x. p.1;
                });
                disk = g.disk;
                free = ground (arith, g.free, free_count-update f s g.after.bufs g.buf g.found);
                frame = record {
                  others =
                      λ t ne. rw (find-update_ne f s t g.after.bufs k ne) (g.frame.others t ne);
                };
              }))))

  -- `bread` on a coherent cache returns the sector's buffer, if nobody else has it and the cache has
  -- the sector or a buffer to spare.
  pub bread_total :
      busy_at c s ≡ false
      → 1 ≤ free_count c.bufs
      → s < c.disk.disksize
      → BreadDone s c (bread 1 s c)
  bread_total idle room h =
      let g = bget_total idle room in
      elim (Bool-cases g.buf.valid) [ inl v ↦ bread_valid g v | inr v ↦ bread_load g v h ]
