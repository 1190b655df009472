-- ===== src/Mkfs.antt =====
-- mkfs/mkfs.c: the program that makes the disk image. The image is a function from sectors to their
-- bytes, and the conversions to the byte order of the machine are in the reading and writing of
-- numbers there. The files are read from the host: each is its name and what the calls of `read` give.
-- A panic is an assertion that fails.
pub mod Bitmap
pub mod Blocks
mod Tests
use base_system.Base.{
  ℕ, zero, suc, ◌+◌, ◌-◌, ◌*◌, ◌/◌, ◌%◌, ◌^◌, Bool, true, false, not, ◌&&◌, Option, none, some,
  List, [], ◌∷◌, ◌++◌, ◌==◌, ltb, leb, if◌then◌else◌, get_or, set, length, take, drop, replicate,
  min, codes,
}
use base_system.Kernel.Action.{Action, ok, panic, ◌>>=◌, ◌>>◌, pure, gets, modify, panic_if}
use base_system.Kernel.Text.{Memory}
use base_system.Kernel.Fs.{Inode, uint_at, put_uint, ipb, bsize, iblock}
use base_system.Kernel.Fs.Inodes.{
  ndirect, nindirect, no_inode, dinode_offset, load_dinode, save_dinode,
}
use base_system.Kernel.Fs.Content.{write_bytes, t_dir, t_file}
use base_system.Kernel.Fs.Blocks.{set_bit}

-- `nblocks`, `nlog`, `ninodes` and `size`
abbrev pub nblocks : ℕ
nblocks = 1970

abbrev pub nlog : ℕ
nlog = 10

abbrev pub ninodes : ℕ
ninodes = 200

abbrev pub image_size : ℕ
image_size = 2009

-- The image, `freeblock`, `usedblocks` and `freeinode`.
pub record Image : Type 0 where
  pub sectors : ℕ → Memory
  pub freeblock : ℕ
  pub usedblocks : ℕ
  pub freeinode : ℕ

-- `wsect` of a whole sector.
abbrev pub wsect : ℕ → Memory → Action Image (Unit {0})
wsect sec buf = modify (λ s. record s { sectors = λ b. if b == sec then buf else s.sectors b })

abbrev pub rsect : ℕ → Action Image Memory
rsect sec = gets (λ s. s.sectors sec)

unfoldable pub winode : ℕ → Inode → Action Image (Unit {0})
winode inum ip = do
  buf ← rsect (iblock inum)
  wsect (iblock inum) (save_dinode ip (dinode_offset inum) buf)

unfoldable pub rinode : ℕ → Action Image Inode
rinode inum = do buf ← rsect (iblock inum); pure (load_dinode buf (dinode_offset inum) no_inode)

abbrev pub new_inode : ℕ → Inode
new_inode type = record no_inode {
  type = type;
  nlink = 1;
  size = 0;
  addrs = replicate (ndirect + 1) 0;
}

unfoldable pub ialloc : ℕ → Action Image ℕ
ialloc type = do
  inum ← gets (λ s. s.freeinode)
  modify (λ s. record s { freeinode = s.freeinode + 1 })
  winode inum (new_inode type)
  pure inum

-- `freeblock++` and `usedblocks++`
unfoldable pub next_block : Action Image ℕ
next_block = do
  b ← gets (λ s. s.freeblock)
  modify (λ s. record s { freeblock = s.freeblock + 1; usedblocks = s.usedblocks + 1 })
  pure b

-- `din.addrs[i]`, allocated if it is zero.
unfoldable pub address : ℕ → Inode → Action Image Inode
address i ip =
    if get_or ip.addrs i 0 == 0
    then (do b ← next_block; pure (record ip { addrs = set ip.addrs i b }))
    else pure ip

-- The entry `i` of the indirect block at `b`, allocated if it is zero.
unfoldable pub indirect : ℕ → ℕ → Action Image ℕ
indirect b i = do
  table ← rsect b
  if uint_at table (i * 4) == 0
      then (do x ← next_block; wsect b (put_uint (i * 4) x table); pure x)
      else pure (uint_at table (i * 4))

-- The sector of the file block `fbn`, and the inode with what was allocated.
unfoldable pub sector_of : ℕ → Inode → Action Image (Inode × ℕ)
sector_of fbn ip =
    if ltb fbn ndirect then (do din ← address fbn ip; pure (din, get_or din.addrs fbn 0)) else (do
      din ← address ndirect ip
      x ← indirect (get_or din.addrs ndirect 0) (fbn - ndirect)
      pure (din, x))

-- The bytes of a round of `iappend`.
abbrev pub piece : ℕ → ℕ → ℕ
piece n off = min n ((off / 512 + 1) * 512 - off)

-- A round of `iappend` in the sector.
abbrev pub append_in : ℕ → List ℕ → Inode × ℕ → Action Image Inode
append_in off p (din, x) = do
  buf ← rsect x
  wsect x (write_bytes (take (piece (length p) off) p) (off % 512) buf)
  pure din

-- The loop of `iappend`: the inode at its end. A round writes a byte at least.
unfoldable pub append_from : ℕ → ℕ → Inode → List ℕ → Action Image Inode
append_from zero off ip p = pure ip
append_from (suc k) off ip p =
    let n1 = piece (length p) off in
    let rest = λ (din : Inode). append_from k (off + n1) din (drop n1 p) in
    if length p == 0 then pure ip else (do
      panic_if (leb (ndirect + nindirect) (off / 512))
      found ← sector_of (off / 512) ip
      din ← append_in off p found
      rest din)

unfoldable pub iappend : ℕ → List ℕ → Action Image (Unit {0})
iappend inum p = do
  ip ← rinode inum
  din ← append_from (length p) ip.size ip p
  winode inum (record din { size = ip.size + length p })

-- A `struct dirent` with a name.
abbrev pub dirent : ℕ → List ℕ → List ℕ
dirent inum name = inum % 256 ∷ inum / 256 % 256 ∷ take 14 (name ++ replicate 14 0)

-- `adddir`: the inode of the directory.
unfoldable pub adddir : List ℕ → ℕ → Action Image ℕ
adddir name parino = do
  inum ← ialloc t_dir
  iappend parino (dirent inum name)
  iappend inum (dirent inum (codes "."))
  iappend inum (dirent parino (codes ".."))
  pure inum

-- The loop of `balloc` from bit `i` on, with `k` bits left.
unfoldable pub mark_from : ℕ → ℕ → Memory → Memory
mark_from zero i buf = buf
mark_from (suc k) i buf = mark_from k (i + 1) (set_bit i buf)

unfoldable pub balloc : ℕ → Action Image (Unit {0})
balloc used = do
  panic_if (leb (512 * 8) used)
  wsect (ninodes / ipb + 3) (mark_from used 0 (λ _. 0))

-- The image at first: empty sectors, and the super block.
abbrev pub super_block : Memory
super_block =
    put_uint 12 nlog (put_uint 8 ninodes (put_uint 4 nblocks (put_uint 0 image_size (λ _. 0))))

abbrev pub bitblocks : ℕ
bitblocks = image_size / (512 * 8) + 1

abbrev pub first_free : ℕ
first_free = ninodes / ipb + 3 + bitblocks

abbrev pub empty_image : Image
empty_image = record {
  sectors = λ b. if b == 1 then super_block else λ _. 0;
  freeblock = first_free;
  usedblocks = first_free;
  freeinode = 1;
}

-- The directories that files go to.
pub record Places : Type 0 where
  pub bin : ℕ
  pub sbin : ℕ
  pub home : ℕ
  pub etc : ℕ

-- `main` up to the files.
unfoldable pub make_root : Action Image ℕ
make_root = do
  root ← ialloc t_dir
  panic_if (not (root == 1))
  iappend root (dirent root (codes "."))
  iappend root (dirent root (codes ".."))
  pure root

unfoldable pub make_usr : ℕ → Action Image (Unit {0})
make_usr root = do
  usr ← adddir (codes "usr") root
  adddir (codes "bin") usr
  adddir (codes "share") usr
  local ← adddir (codes "local") usr
  adddir (codes "bin") local
  adddir (codes "sbin") usr
  adddir (codes "sbin") local
  pure tt

unfoldable pub make_dirs : ℕ → Action Image Places
make_dirs root = do
  bin ← adddir (codes "bin") root
  adddir (codes "dev") root
  etc ← adddir (codes "etc") root
  home ← adddir (codes "root") root
  adddir (codes "proc") root
  sbin ← adddir (codes "sbin") root
  make_usr root
  pure (record { bin = bin; sbin = sbin; home = home; etc = etc })

-- Where a file goes, by the first character of its name, and its name there: `_`, `!` and `.` are skipped.
abbrev pub place : Places → List ℕ → ℕ × List ℕ
place d [] = (d.etc, [])
place d (c ∷ name) =
    if c == 95
    then (d.bin, name)
    else if c == 33
    then (d.sbin, name)
    else if c == 46
    then (d.home, name)
    else (d.etc, c ∷ name)

-- A file of the host.
pub record HostFile : Type 0 where
  pub name : List ℕ
  pub reads : List (List ℕ)

unfoldable pub append_reads : ℕ → List (List ℕ) → Action Image (Unit {0})
append_reads inum [] = pure tt
append_reads inum (bytes ∷ reads) = do iappend inum bytes; append_reads inum reads

unfoldable pub add_file : Places → HostFile → Action Image (Unit {0})
add_file d f = do
  inum ← ialloc t_file
  iappend (place d f.name).0 (dirent inum (place d f.name).1)
  append_reads inum f.reads

unfoldable pub add_files : Places → List HostFile → Action Image (Unit {0})
add_files d [] = pure tt
add_files d (f ∷ fs) = do add_file d f; add_files d fs

-- The end of `main`: the size of the root directory goes up to a whole block, and the bitmap is written.
unfoldable pub round_root : ℕ → Action Image (Unit {0})
round_root root = do
  din ← rinode root
  winode root (record din { size = (din.size / bsize + 1) * bsize })

unfoldable pub fill_image : List HostFile → Action Image (Unit {0})
fill_image files = do root ← make_root; d ← make_dirs root; add_files d files; round_root root

unfoldable pub mkfs : List HostFile → Action Image (Unit {0})
mkfs files = do fill_image files; used ← gets (λ s. s.usedblocks); balloc used
