-- ===== src/Kernel/Bio/Total.antt =====
-- The calls of kernel/bio.c on a coherent cache with a buffer to spare.
use base_system.Base.{ℕ, ◌<◌, ◌≡◌, refl, inl, Bool, true, false, ◌&&◌, leb, some, ◌∷◌, arith}
use base_system.Kernel.Action.{ok, ◌>>◌}
use base_system.Kernel.Bio.{
  deref, Block, Buf, Cache, disk_read, find_buf, update_buf, unlink, assign, memiderw, bwrite,
  brelse,
}
use base_system.Kernel.Bio.Bufs.{
  free_count, KeepsKey, update-update, find-All, find-update_self, find-update_ne, All-update,
  Unique-update,
}
use base_system.Kernel.Bio.Lru.{
  find-unlink_ne, find-unlink_self, Unique-unlink, All-unlink, free_count-unlink,
}
use base_system.Kernel.Bio.Wf.{Good, IsCoherent, Frame, BrelseDone}

not_clean : (v : Bool) → (v && false) ≡ false
not_clean v = ground arith

module _ (s : ℕ) (c : Cache) (b : Buf) (coherent : IsCoherent c)
    (found : find_buf 1 s c.bufs ≡ some b) where
  abbrev pub changed : (Buf → Buf) → Cache
  changed f = record c { bufs = update_buf f 1 s c.bufs }

  -- The buffer of `s` after `bwrite` of the contents `v`.
  abbrev pub written : Block → Buf → Buf
  written v x = record x { contents = v; valid = true; dirty = false }

  abbrev pub loaded : Buf → Buf
  loaded x = record x { contents = disk_read c.disk s; valid = true }

  pub place : (Good c.disk b) × (b.dev ≡ 1) × (b.sector ≡ s)
  place = find-All (Good c.disk) s c.bufs b coherent.good found

  -- An update of the one buffer keeps the other sectors' buffers.
  pub Frame-changed : (f : Buf → Buf) → KeepsKey f → Frame s c (changed f)
  Frame-changed f k = record { others = λ t ne. inl (find-update_ne f s t c.bufs k ne) }

  pub IsCoherent-changed : (f : Buf → Buf) → KeepsKey f → Good c.disk (f b) → IsCoherent (changed f)
  IsCoherent-changed f k g = record {
    good = All-update (Good c.disk) f s c.bufs b coherent.good found g;
    unique = Unique-update f s c.bufs k coherent.unique;
  }

  pub deref_eq : deref 1 s c ≡ (ok b, c)
  unfolding deref
  deref_eq = ground arith

  brelse_eq :
      b.busy ≡ true
      → brelse 1 s c ≡ (ok tt, record c { bufs = record b { busy = false } ∷ unlink 1 s c.bufs })
  unfolding brelse
  brelse_eq busy = ground (arith, deref_eq)

  brelse_Good : Good c.disk (record b { busy = false })
  brelse_Good =
      let g = place.0 in record { clean = g.clean; pinned = g.pinned; on_disk = g.on_disk }

  -- In a coherent cache, `brelse` of a buffer in use does not panic: the buffer is no longer in use and
  -- keeps what it holds, the disk is unchanged, the cache is coherent, there is one free buffer more
  -- unless it is dirty, and the other sectors' buffers are as before.
  pub brelse_total : b.busy ≡ true → BrelseDone s b c (brelse 1 s c)
  brelse_total busy = rw (brelse_eq busy) (record {
    returned = refl;
    found = unfold find_buf in ground (arith, place);
    coherent = record {
      good = (brelse_Good, All-unlink s (Good c.disk) c.bufs coherent.good);
      unique = (
        λ d. rw (place.2) (find-unlink_self s c.bufs coherent.unique),
        Unique-unlink s c.bufs coherent.unique,
      );
    };
    disk = refl;
    free = unfold free_count in ground (arith, free_count-unlink s c.bufs b);
    frame = record {
      others = λ t ne. inl (unfold find_buf in ground (arith, place, find-unlink_ne s t c.bufs ne));
    };
  })

  pub memiderw_load :
      b.busy ≡ true
      → b.valid ≡ false
      → b.dirty ≡ false
      → s < c.disk.disksize
      → memiderw 1 s c ≡ (ok tt, changed loaded)
  unfolding memiderw
  memiderw_load busy valid dirty h =
      let in_range : leb c.disk.disksize b.sector ≡ false = ground (arith, place) in
      rw (deref_eq)
        (rw (busy) (rw (valid) (rw (place.1) (rw (in_range) (rw (dirty) (rw (place.2) refl))))))

  pub deref-changed : (f : Buf → Buf) → KeepsKey f → deref 1 s (changed f) ≡ (ok (f b), changed f)
  unfolding deref
  deref-changed f k = rw (find-update_self f s c.bufs b k found, deref)

  abbrev pub filled : Block → Buf → Buf
  filled v x = record x { contents = v }

  abbrev pub marked : Block → Buf → Buf
  marked v x = record x { contents = v; dirty = true }

  pub filled-KeepsKey : (v : Block) → KeepsKey (filled v)
  filled-KeepsKey v = record { dev = λ x. refl; sector = λ x. refl }

  marked-KeepsKey : (v : Block) → KeepsKey (marked v)
  marked-KeepsKey v = record { dev = λ x. refl; sector = λ x. refl }

  pub written-KeepsKey : (v : Block) → KeepsKey (written v)
  written-KeepsKey v = record { dev = λ x. refl; sector = λ x. refl }

  memiderw_store :
      (v : Block)
      → b.busy ≡ true
      → s < c.disk.disksize
      → memiderw 1 s (changed (marked v)) ≡ (
        ok tt,
        record (changed (written v)) { disk = record c.disk { writes = (s, v) ∷ c.disk.writes } },
      )
  unfolding memiderw
  memiderw_store v busy h =
      let in_range : leb c.disk.disksize b.sector ≡ false = ground (arith, place) in
      rw (deref-changed (marked v) (marked-KeepsKey v)) (
        rw busy (
          rw (not_clean b.valid) (
            rw (place.1) (
              rw in_range (
                rw (place.2) (
                  rw
                    (update-update (marked v) (λ x. record x { dirty = false; valid = true }) s
                      c.bufs (marked-KeepsKey v))
                    refl))))))

  pub bwrite_eq :
      (v : Block)
      → b.busy ≡ true
      → s < c.disk.disksize
      → (assign (filled v) 1 s >> bwrite 1 s) c ≡ (
        ok tt,
        record (changed (written v)) { disk = record c.disk { writes = (s, v) ∷ c.disk.writes } },
      )
  unfolding bwrite
  bwrite_eq v busy h = rw (deref-changed (filled v) (filled-KeepsKey v)) (
      rw busy (
        rw (update-update (filled v) (λ x. record x { dirty = true }) s c.bufs (filled-KeepsKey v))
          (memiderw_store v busy h)))
