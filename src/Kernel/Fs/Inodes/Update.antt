-- ===== src/Kernel/Fs/Inodes/Update.antt =====
-- The fields of an inode in its block: what `iupdate` of kernel/fs.c saves and `ilock` loads.
use base_system.Base.{ℕ, ◌+◌, ◌*◌, ◌<◌, ◌≡◌, ◌≢◌, arith}
use base_system.Kernel.Text.{Memory}
use base_system.Kernel.Fs.{Inode, iblock}
use base_system.Kernel.Fs.Inodes.{dinode_offset, load_dinode, save_dinode}
use base_system.Kernel.Fs.Inodes.Layout.{IsStorable, load-save_dinode, save_dinode_apart}

-- The inode has the fields of the other that the disk keeps.
abbrev pub SameFields : Inode → Inode → Type 0
SameFields p ip =
    (p.type ≡ ip.type)
    × (p.major ≡ ip.major)
    × (p.minor ≡ ip.minor)
    × (p.nlink ≡ ip.nlink)
    × (p.size ≡ ip.size)
    × (p.addrs ≡ ip.addrs)

-- The fields before the addresses at their offsets in `struct dinode`, little-endian.
abbrev pub HasBytesOf : Inode → (ℕ → ℕ) → Type 0
HasBytesOf ip byte =
    (byte 0 + byte 1 * 256 ≡ ip.type)
    × (byte 2 + byte 3 * 256 ≡ ip.major)
    × (byte 4 + byte 5 * 256 ≡ ip.minor)
    × (byte 6 + byte 7 * 256 ≡ ip.nlink)
    × (byte 8 + byte 9 * 256 + byte 10 * 65536 + byte 11 * 16777216 ≡ ip.size)

saved-HasBytesOf :
    (ip : Inode) (o : ℕ) (m : Memory)
    → IsStorable ip
    → HasBytesOf ip (λ i. save_dinode ip o m (o + i))
unfolding load_dinode
saved-HasBytesOf ip o m w =
    let (a, b, c, d, e, f) = load-save_dinode ip ip o m w in
    let at0 : o + 0 ≡ o = omega arith in
    let at3 : o + 3 ≡ o + 2 + 1 = omega arith in
    let at5 : o + 5 ≡ o + 4 + 1 = omega arith in
    let at7 : o + 7 ≡ o + 6 + 1 = omega arith in
    let at9 : o + 9 ≡ o + 8 + 1 = omega arith in
    let at10 : o + 10 ≡ o + 8 + 2 = omega arith in
    let at11 : o + 11 ≡ o + 8 + 3 = omega arith in
    (rw at0 a, rw at3 b, rw at5 c, rw at7 d, rw (at9, at10, at11) e)

-- Where `iupdate` has saved an inode, whose fields have the widths of their types, in a block with any
-- contents: the type, the numbers of the device, the links and the size are at their offsets in
-- `struct dinode`, `ilock` loads from the block all the fields that the inode had, and the byte `k` of
-- any other inode of the block is what it was.
pub dinode_roundtrip :
    (ip q : Inode) (j k : ℕ) (m : Memory)
    → IsStorable ip
    → iblock j ≡ iblock ip.inum
    → j ≢ ip.inum
    → k < 64
    → let o = dinode_offset ip.inum in
      let saved = save_dinode ip o m in
      HasBytesOf ip (λ i. saved (o + i))
      × SameFields (load_dinode saved o q) ip
      × (saved (dinode_offset j + k) ≡ m (dinode_offset j + k))
dinode_roundtrip ip q j k m w same other l =
    let o = dinode_offset ip.inum in
    (
      saved-HasBytesOf ip o m w,
      load-save_dinode ip q o m w,
      save_dinode_apart ip o (dinode_offset j + k) m w (ground (arith, same, other, l)),
    )
