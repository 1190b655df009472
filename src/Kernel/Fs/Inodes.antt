-- ===== src/Kernel/Fs/Inodes.antt =====
-- kernel/fs.c: inodes on the disk, and the cache of the inodes in use. `icache.lock` makes each change
-- of the cache one step.
pub mod Layout
pub mod Update
pub mod Cache
pub mod Gets
use base_system.Base.{
  ℕ, zero, suc, ◌+◌, ◌-◌, ◌*◌, ◌/◌, ◌%◌, Bool, true, false, not, ◌&&◌, ◌||◌, Option, none, some,
  List, [], ◌∷◌, ◌==◌, leb, ltb, if◌then◌else◌, get_or, set, replicate,
}
use base_system.Kernel.Action.{Action, ok, panic, sleeps, ◌>>=◌, ◌>>◌, pure, gets, modify, panic_if}
use base_system.Kernel.Text.{Memory}
use base_system.Kernel.Fs.{
  Inode, Fs, block, put_block, short_at, uint_at, put_short, put_uint, ipb, iblock, SuperBlock,
  readsb,
}

-- `NDIRECT` and `NINDIRECT`
abbrev pub ndirect : ℕ
ndirect = 12

abbrev pub nindirect : ℕ
nindirect = 128

abbrev pub no_inode : Inode
no_inode = record {
  dev = 0;
  inum = 0;
  ref = 0;
  busy = false;
  valid = false;
  uid = 0;
  type = 0;
  major = 0;
  minor = 0;
  nlink = 0;
  size = 0;
  addrs = replicate 13 0;
}

abbrev pub inode_at : Fs → ℕ → Inode
inode_at s i = get_or s.icache i no_inode

-- An assignment to fields of the inode at a pointer.
abbrev pub on_inode : (Inode → Inode) → ℕ → Fs → Fs
on_inode f i s = record s { icache = set s.icache i (f (inode_at s i)) }

-- `(struct dinode*)bp->data + inum%IPB`; a `struct dinode` has 64 bytes.
abbrev pub dinode_offset : ℕ → ℕ
dinode_offset inum = inum % ipb * 64

-- `k` values of `dip->addrs` from the offset `p` on.
unfoldable pub addrs_at : ℕ → Memory → ℕ → List ℕ
addrs_at zero m p = []
addrs_at (suc k) m p = uint_at m p ∷ addrs_at k m (p + 4)

unfoldable pub put_addrs : List ℕ → ℕ → Memory → Memory
put_addrs [] p m = m
put_addrs (a ∷ addrs) p m = put_addrs addrs (p + 4) (put_uint p a m)

-- What `ilock` copies from the disk.
unfoldable pub load_dinode : Memory → ℕ → Inode → Inode
load_dinode m o ip = record ip {
  type = short_at m o;
  major = short_at m (o + 2);
  minor = short_at m (o + 4);
  nlink = short_at m (o + 6);
  size = uint_at m (o + 8);
  addrs = addrs_at (ndirect + 1) m (o + 12);
}

-- What `iupdate` copies to the disk.
unfoldable pub save_dinode : Inode → ℕ → Memory → Memory
save_dinode ip o m = put_addrs ip.addrs (o + 12) (
    put_uint (o + 8) ip.size (
      put_short (o + 6) ip.nlink
        (put_short (o + 4) ip.minor (put_short (o + 2) ip.major (put_short o ip.type m)))))

-- What the loop of `iget` finds: the inode, or else the first free entry.
pub data Slot : Type 0 where
  cached vacant : ℕ → Slot
  full : Slot

abbrev pub is_cached : ℕ → ℕ → Inode → Bool
is_cached dev inum ip = ltb 0 ip.ref && ip.dev == dev && ip.inum == inum

abbrev pub slot_of : Option ℕ → Slot
slot_of none = full
slot_of (some i) = vacant i

-- The loop from index `i` on; `empty` is the free entry seen so far.
unfoldable pub look_from : ℕ → ℕ → ℕ → Option ℕ → List Inode → Slot
look_from dev inum i empty [] = slot_of empty
look_from dev inum i (some e) (ip ∷ ips) =
    let rest = look_from dev inum (i + 1) (some e) ips in
    if is_cached dev inum ip then cached i else rest
look_from dev inum i none (ip ∷ ips) =
    let taken = look_from dev inum (i + 1) (some i) ips in
    let rest = look_from dev inum (i + 1) none ips in
    if is_cached dev inum ip then cached i else if ip.ref == 0 then taken else rest

unfoldable pub iget : ℕ → ℕ → Action Fs ℕ
iget dev inum s = elim (look_from dev inum 0 none s.icache) [
  | cached i ↦ (ok i, on_inode (λ ip. record ip { ref = ip.ref + 1 }) i s)
  | vacant i ↦ (
    ok i,
    on_inode (λ ip. record ip { dev = dev; inum = inum; ref = 1; busy = false; valid = false }) i s,
  )
  | full ↦ (panic, s)
]

unfoldable pub idup : ℕ → Action Fs ℕ
idup i s = (ok i, on_inode (λ ip. record ip { ref = ip.ref + 1 }) i s)

-- `ilock` of an inode that is not null. It sleeps while another has the lock, and looks again.
unfoldable pub ilock : ℕ → Action Fs (Unit {0})
ilock i = do
  ip ← gets (λ s. inode_at s i)
  panic_if (ltb ip.ref 1)
  if ip.busy then (λ s. (sleeps, s)) else pure tt
  modify (on_inode (λ p. record p { busy = true }) i)
  if ip.valid then pure tt else (do
    m ← block ip.dev (iblock ip.inum)
    modify (on_inode (λ p. record (load_dinode m (dinode_offset ip.inum) p) { valid = true }) i)
    panic_if (short_at m (dinode_offset ip.inum) == 0))

unfoldable pub iunlock : ℕ → Action Fs (Unit {0})
iunlock i = do
  ip ← gets (λ s. inode_at s i)
  panic_if (not ip.busy || ltb ip.ref 1)
  modify (on_inode (λ p. record p { busy = false }) i)

-- `iupdate` in a transaction whose log has room (see `put_block`).
unfoldable pub iupdate : ℕ → Action Fs (Unit {0})
iupdate i = do
  ip ← gets (λ s. inode_at s i)
  m ← block ip.dev (iblock ip.inum)
  put_block ip.dev (iblock ip.inum) (save_dinode ip (dinode_offset ip.inum) m)

-- `memset(dip, 0, sizeof(*dip))` and the type.
abbrev pub fresh_dinode : ℕ → ℕ → Memory → Memory
fresh_dinode type o m = put_short o type (λ i. if leb o i && ltb i (o + 64) then 0 else m i)

-- The loop of `ialloc` from `inum` on, with `k` rounds left.
unfoldable pub ialloc_from : ℕ → ℕ → ℕ → ℕ → Action Fs ℕ
ialloc_from zero dev type inum s = (panic, s)
ialloc_from (suc k) dev type inum s =
    let m = s.disks dev (iblock inum) in
    let rest = ialloc_from k dev type (inum + 1) s in
    let taken : Action Fs ℕ = do
      put_block dev (iblock inum) (fresh_dinode type (dinode_offset inum) m)
      iget dev inum
    in if short_at m (dinode_offset inum) == 0 then taken s else rest

unfoldable pub ialloc : ℕ → ℕ → Action Fs ℕ
ialloc dev type = do sb ← readsb dev; ialloc_from (sb.ninodes - 1) dev type 1
