-- ===== src/Kernel/Fs.antt =====
-- kernel/fs.c: what its layers share. The blocks of a device are the logical ones of the running
-- transaction: between `bread` and `brelse` the code reads and changes the contents of a block, and
-- `log_write` keeps the change (see `put_block`). A block is the function from its offsets to bytes.
pub mod Blocks
pub mod Inodes
pub mod Content
pub mod Dirs
mod Tests
use base_system.Base.{
  ℕ, zero, suc, ◌+◌, ◌-◌, ◌*◌, ◌/◌, ◌%◌, ◌^◌, Bool, true, false, ◌&&◌, List, [], ◌∷◌, ◌==◌, leb,
  ltb, if◌then◌else◌,
}
use base_system.Kernel.Action.{Action, ok}
use base_system.Kernel.Text.{Memory, store}

-- `struct inode`. A `short` is its 16 bits.
pub record Inode : Type 0 where
  pub dev : ℕ
  pub inum : ℕ
  pub ref : ℕ
  pub busy : Bool
  pub valid : Bool
  pub uid : ℕ
  pub type : ℕ
  pub major : ℕ
  pub minor : ℕ
  pub nlink : ℕ
  pub size : ℕ
  pub addrs : List ℕ

-- The disks by device and block, and `icache`. A pointer to an inode is its index.
pub record Fs : Type 0 where
  pub disks : ℕ → ℕ → Memory
  pub icache : List Inode

-- `bread(dev, b)->data`
abbrev pub block : ℕ → ℕ → Action Fs Memory
block dev b s = (ok (s.disks dev b), s)

-- A change of the contents of a block and `log_write`, in a transaction whose log has room for the
-- block. The panics of `log_write` outside of a transaction and in a full log are not modelled here,
-- nor are the sleep and the panic of `bread` (Kernel/Bio): what is proved of these layers is about
-- calls in which none of the three happens.
abbrev pub put_disk : (ℕ → ℕ → Memory) → ℕ → ℕ → Memory → ℕ → ℕ → Memory
put_disk disks dev b m d c = if d == dev && c == b then m else disks d c

abbrev pub put_block : ℕ → ℕ → Memory → Action Fs (Unit {0})
put_block dev b m s = (ok tt, record s { disks = put_disk s.disks dev b m })

-- Little-endian numbers in a block.
abbrev pub short_at : Memory → ℕ → ℕ
short_at m p = m p + m (p + 1) * 256

abbrev pub uint_at : Memory → ℕ → ℕ
uint_at m p = m p + m (p + 1) * 256 + m (p + 2) * 65536 + m (p + 3) * 16777216

abbrev pub put_short : ℕ → ℕ → Memory → Memory
put_short p v m = store (p + 1) (v / 256 % 256) (store p (v % 256) m)

abbrev pub put_uint : ℕ → ℕ → Memory → Memory
put_uint p v m =
    store (p + 3) (v / 16777216 % 256)
      (store (p + 2) (v / 65536 % 256) (store (p + 1) (v / 256 % 256) (store p (v % 256) m)))

abbrev pub bsize : ℕ
bsize = 512

-- `BPB`, bits of the bitmap in a block.
abbrev pub bpb : ℕ
bpb = 4096

-- `IPB`, inodes in a block.
abbrev pub ipb : ℕ
ipb = 8

-- `IBLOCK` and `BBLOCK`
abbrev pub iblock : ℕ → ℕ
iblock i = i / ipb + 2

abbrev pub bblock : ℕ → ℕ → ℕ
bblock b ninodes = b / bpb + ninodes / ipb + 3

-- `struct superblock`
pub record SuperBlock : Type 0 where
  pub size : ℕ
  pub nblocks : ℕ
  pub ninodes : ℕ
  pub nlog : ℕ

abbrev pub superblock_of : Memory → SuperBlock
superblock_of m = record {
  size = uint_at m 0;
  nblocks = uint_at m 4;
  ninodes = uint_at m 8;
  nlog = uint_at m 12;
}

-- `readsb`
abbrev pub readsb : ℕ → Action Fs SuperBlock
readsb dev s = (ok (superblock_of (s.disks dev 1)), s)
