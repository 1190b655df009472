-- ===== src/Kernel/Fs/Blocks.antt =====
-- kernel/fs.c: the allocator of disk blocks.
pub mod Bits
pub mod Search
pub mod Bitmap
pub mod Release
use Prim.Native.Nat.{bit_and, bit_or}
use base_system.Base.{
  ℕ, zero, suc, ◌+◌, ◌-◌, ◌*◌, ◌/◌, ◌%◌, ◌^◌, Bool, true, false, ◌&&◌, Option, none, some, ◌==◌,
  leb, ltb, if◌then◌else◌,
}
use base_system.Kernel.Action.{Action, ok, panic, ◌>>=◌, ◌>>◌, pure, panic_if}
use base_system.Kernel.Text.{Memory, store}
use base_system.Kernel.Fs.{Fs, block, put_block, bsize, bpb, ipb, bblock, SuperBlock, readsb}

-- `bzero`: the `BSIZE` bytes of the block.
abbrev pub zeroed : Memory → Memory
zeroed m i = if ltb i bsize then 0 else m i

unfoldable pub bzero : ℕ → ℕ → Action Fs (Unit {0})
bzero dev bno = do m ← block dev bno; put_block dev bno (zeroed m)

-- `m = 1 << (bi % 8)`
abbrev pub mask : ℕ → ℕ
mask bi = 2 ^ (bi % 8)

-- `(bp->data[bi/8] & m) == 0`
abbrev pub is_clear : Memory → ℕ → Bool
is_clear m bi = bit_and (m (bi / 8)) (mask bi) == 0

abbrev pub set_bit : ℕ → Memory → Memory
set_bit bi m = store (bi / 8) (bit_or (m (bi / 8)) (mask bi)) m

-- `bp->data[bi/8] &= ~m`
abbrev pub clear_bit : ℕ → Memory → Memory
clear_bit bi m = store (bi / 8) (bit_and (m (bi / 8)) (255 - mask bi)) m

-- The inner loop of `balloc` from `bi` on, with `k` rounds up to `BPB` left: the first clear bit.
unfoldable pub scan : ℕ → Memory → ℕ → ℕ → ℕ → Option ℕ
scan zero m b size bi = none
scan (suc k) m b size bi =
    let rest = scan k m b size (bi + 1) in
    if ltb (b + bi) size then if is_clear m bi then some bi else rest else none

-- Bit `bi` of the bitmap block `bno` is free: it is for block `b`.
unfoldable pub take_block : ℕ → ℕ → ℕ → ℕ → Action Fs ℕ
take_block dev bno bi b = do
  m ← block dev bno
  put_block dev bno (set_bit bi m)
  bzero dev b
  pure b

-- The outer loop of `balloc` with `k` rounds left, for the groups of `BPB` blocks below the size.
unfoldable pub balloc_from : ℕ → ℕ → SuperBlock → ℕ → Action Fs ℕ
balloc_from zero dev sb b s = (panic, s)
balloc_from (suc k) dev sb b s =
    let bno = bblock b sb.ninodes in
    let m = s.disks dev bno in
    let rest = balloc_from k dev sb (b + bpb) s in
    if ltb b sb.size
    then elim (scan bpb m b sb.size 0) [ some bi ↦ take_block dev bno bi (b + bi) s | none ↦ rest ]
    else (panic, s)

unfoldable pub balloc : ℕ → Action Fs ℕ
balloc dev = do sb ← readsb dev; balloc_from (sb.size / bpb + 1) dev sb 0

unfoldable pub bfree : ℕ → ℕ → Action Fs (Unit {0})
bfree dev b = do
  sb ← readsb dev
  m ← block dev (bblock b sb.ninodes)
  let bi = b % bpb
  panic_if (is_clear m bi)
  put_block dev (bblock b sb.ninodes) (clear_bit bi m)
