-- ===== src/Kernel/Bio/Bwrite.antt =====
-- Filling a buffer in use and calling `bwrite` on it.
use base_system.Base.{
  ℕ, ◌<◌, ◌≡◌, refl, true, false, none, some, List, [], ◌∷◌, arith, Bool-cases, inl, inr,
}
use base_system.Kernel.Action.{◌>>◌}
use base_system.Kernel.Bio.{Block, Buf, Disk, Cache, holds, find_buf, update_buf, assign, bwrite}
use base_system.Kernel.Bio.Bufs.{
  All, Unique, free_count-update, find-update_self, Unique-update, find-update_ne,
}
use base_system.Kernel.Bio.Wf.{Good, IsCoherent, BwriteDone}
use base_system.Kernel.Bio.Total

All-absent :
    (P Q : Buf → Type 0) (s : ℕ) (bs : List Buf)
    → ((x : Buf) → P x → holds 1 s x ≡ false → Q x)
    → All P bs
    → find_buf 1 s bs ≡ none
    → All Q bs
unfolding find_buf
All-absent P Q s [] h a e = tt
All-absent P Q s (x ∷ bs) h a e = (h x a.0 (ground arith), All-absent P Q s bs h a.1 (ground arith))

-- The one buffer of `s` changes, and every other satisfies what the change asks of it.
All-update_change :
    (P Q : Buf → Type 0) (f : Buf → Buf) (s : ℕ) (bs : List Buf) (b : Buf)
    → ((x : Buf) → P x → holds 1 s x ≡ false → Q x)
    → All P bs
    → Unique bs
    → find_buf 1 s bs ≡ some b
    → Q (f b)
    → All Q (update_buf f 1 s bs)
unfolding find_buf update_buf
All-update_change P Q f s [] b h a u e q = tt
All-update_change P Q f s (x ∷ bs) b h a u e q = elim (Bool-cases (holds 1 s x)) [
  | inl here ↦
      let e1 : b ≡ x = ground arith in
      let e2 : x.sector ≡ s = ground arith in
      rw here (rw e1 at q, All-absent P Q s bs h a.1 (rw e2 at (u.0 (ground arith))))
  | inr there ↦ rw there (h x a.0 there, All-update_change P Q f s bs b h a.1 u.1 (rw there at e) q)
]

-- A write of sector `s` keeps a buffer of another sector coherent.
Good-write :
    (d : Disk) (s : ℕ) (v : Block) (x : Buf)
    → Good d x
    → holds 1 s x ≡ false
    → Good (record d { writes = (s, v) ∷ d.writes }) x
Good-write d s v x g h = record {
  clean = λ a b. ground (arith, g.clean a b, g.on_disk a);
  pinned = g.pinned;
  on_disk = g.on_disk;
}

module _ (s : ℕ) (c : Cache) (b : Buf) (coherent : IsCoherent c)
    (found : find_buf 1 s c.bufs ≡ some b) where
  -- In a coherent cache, filling a buffer in use of a sector on the disk and `bwrite` write the sector
  -- through: no panic, one more disk write, the buffer is clean, the cache is coherent and the other
  -- sectors' buffers are as before.
  pub bwrite_total :
      (v : Block)
      → b.busy ≡ true
      → s < c.disk.disksize
      → BwriteDone s v c ((assign (Total.filled s c b coherent found v) 1 s >> bwrite 1 s) c)
  bwrite_total v busy h =
      let f = Total.written s c b coherent found v in
      let k = Total.written-KeepsKey s c b coherent found v in
      rw (Total.bwrite_eq s c b coherent found v busy h) (record {
        buf = f b;
        returned = refl;
        found = find-update_self f s c.bufs b k found;
        busy = busy;
        dirty = refl;
        coherent = record {
          good =
              All-update_change (Good c.disk)
                (Good (record c.disk { writes = (s, v) ∷ c.disk.writes })) f s c.bufs b
                (Good-write c.disk s v) coherent.good coherent.unique found
                (record {
                  clean = λ x y. ground (arith, Total.place s c b coherent found);
                  pinned = λ x. refl;
                  on_disk = λ x. (Total.place s c b coherent found).1;
                });
          unique = Unique-update f s c.bufs k coherent.unique;
        };
        disk = refl;
        free = ground (arith, free_count-update f s c.bufs b found);
        frame = record { others = λ t ne. inl (find-update_ne f s t c.bufs k ne) };
      })
