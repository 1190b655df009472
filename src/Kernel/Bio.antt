-- ===== src/Kernel/Bio.antt =====
-- kernel/bio.c, the buffer cache, and kernel/memdisk.c, the disk below it.
pub mod Bufs
pub mod Lru
pub mod Wf
pub mod Total
pub mod Bwrite
pub mod Bread
use base_system.Base.{
  ℕ, zero, suc, ◌-◌, ◌^◌, Bool, true, false, not, ◌&&◌, ◌||◌, Option, none, some, List, [], ◌∷◌,
  leb, ◌==◌, if◌then◌else◌, replicate,
}
use base_system.Kernel.Action.{Action, Result, ok, panic, sleeps, ◌>>=◌, ◌>>◌, pure, gets, panic_if}

-- The 512 bytes of a block, as 128 little-endian words.
abbrev pub Block : Type 0
Block = List ℕ

abbrev pub nbuf : ℕ
nbuf = 10

-- `struct buf` without its list links. A pointer to a buffer that is in use is the pair of its `dev`
-- and `sector`: `bget` never gives two buffers the same pair.
pub record Buf : Type 0 where
  pub busy : Bool
  pub valid : Bool
  pub dirty : Bool
  pub dev : ℕ
  pub sector : ℕ
  pub contents : Block

-- The memory disk: the sector writes so far, newest first, over the image that it started from.
-- A crash keeps some suffix of the writes.
pub record Disk : Type 0 where
  pub disksize : ℕ
  pub image : ℕ → Block
  pub writes : List (ℕ × Block)

abbrev pub latest : (ℕ → Block) → List (ℕ × Block) → ℕ → Block
latest image [] s = image s
latest image ((t, v) ∷ ws) s = if t == s then v else latest image ws s

abbrev pub disk_read : Disk → ℕ → Block
disk_read d s = latest d.image d.writes s

-- `bcache`: the buffers in the order of the list from `head.next`, most recently used first.
pub record Cache : Type 0 where
  pub bufs : List Buf
  pub disk : Disk

abbrev pub empty_buf : Buf
empty_buf = record {
  busy = false;
  valid = false;
  dirty = false;
  dev = 2 ^ 32 - 1;
  sector = 0;
  contents = replicate 128 0;
}

-- Every buffer starts with `dev` at -1.
unfoldable pub binit : Disk → Cache
binit d = record { bufs = replicate nbuf empty_buf; disk = d }

abbrev pub holds : ℕ → ℕ → Buf → Bool
holds dev sector b = b.dev == dev && b.sector == sector

unfoldable pub find_buf : ℕ → ℕ → List Buf → Option Buf
find_buf dev sector [] = none
find_buf dev sector (b ∷ bs) = if holds dev sector b then some b else find_buf dev sector bs

-- An assignment to fields of the buffer at a pointer.
unfoldable pub update_buf : (Buf → Buf) → ℕ → ℕ → List Buf → List Buf
update_buf f dev sector [] = []
update_buf f dev sector (b ∷ bs) =
    if holds dev sector b then f b ∷ bs else b ∷ update_buf f dev sector bs

abbrev pub is_free : Buf → Bool
is_free b = not b.busy && not b.dirty

-- The second loop of `bget`, from the end of the list: the least recently used free buffer is taken.
unfoldable pub recycle : ℕ → ℕ → List Buf → Option (List Buf)
recycle dev sector [] = none
recycle dev sector (b ∷ bs) = elim (recycle dev sector bs) [
  | some bs' ↦ some (b ∷ bs')
  | none ↦
      if is_free b
      then some
          (record b { dev = dev; sector = sector; busy = true; valid = false; dirty = false } ∷ bs)
      else none
]

-- The list after unlinking the buffer at a pointer.
unfoldable pub unlink : ℕ → ℕ → List Buf → List Buf
unlink dev sector [] = []
unlink dev sector (b ∷ bs) = if holds dev sector b then bs else b ∷ unlink dev sector bs

-- What the pointer points at. A pointer that no `bget` returned is a fault.
unfoldable pub deref : ℕ → ℕ → Action Cache Buf
deref dev sector c = elim (find_buf dev sector c.bufs) [ some b ↦ (ok b, c) | none ↦ (panic, c) ]

abbrev pub assign : (Buf → Buf) → ℕ → ℕ → Action Cache (Unit {0})
assign f dev sector c = (ok tt, record c { bufs = update_buf f dev sector c.bufs })

abbrev push_write : ℕ → Block → Action Cache (Unit {0})
push_write s v c = (ok tt, record c { disk = record c.disk { writes = (s, v) ∷ c.disk.writes } })

-- `memiderw`
unfoldable pub memiderw : ℕ → ℕ → Action Cache (Unit {0})
memiderw dev sector = do
  b ← deref dev sector
  panic_if (not b.busy)
  panic_if (b.valid && not b.dirty)
  panic_if (not (b.dev == 1))
  size ← gets (λ c. c.disk.disksize)
  panic_if (leb size b.sector)
  if b.dirty
      then (do
        push_write b.sector b.contents
        assign (λ x. record x { dirty = false; valid = true }) dev sector)
      else (do
        v ← gets (λ c. disk_read c.disk b.sector)
        assign (λ x. record x { contents = v; valid = true }) dev sector)

-- `bget`. It sleeps on a busy buffer; the caller looks again when woken.
unfoldable pub bget : ℕ → ℕ → Action Cache (Unit {0})
bget dev sector c = elim (find_buf dev sector c.bufs) [
  | some b ↦ if b.busy then (sleeps, c) else assign (λ x. record x { busy = true }) dev sector c
  | none ↦ elim (recycle dev sector c.bufs) [
    | some bs ↦ (ok tt, record c { bufs = bs })
    | none ↦ (panic, c)
  ]
]

unfoldable pub bread : ℕ → ℕ → Action Cache (Unit {0})
unfolding bget memiderw
bread dev sector = do
  bget dev sector
  b ← deref dev sector
  if b.valid then pure tt else memiderw dev sector

unfoldable pub bwrite : ℕ → ℕ → Action Cache (Unit {0})
unfolding memiderw
bwrite dev sector = do
  b ← deref dev sector
  panic_if (not b.busy)
  assign (λ x. record x { dirty = true }) dev sector
  memiderw dev sector

unfoldable pub brelse : ℕ → ℕ → Action Cache (Unit {0})
brelse dev sector = do
  b ← deref dev sector
  panic_if (not b.busy)
  λ c. (ok tt, record c { bufs = record b { busy = false } ∷ unlink dev sector c.bufs })
