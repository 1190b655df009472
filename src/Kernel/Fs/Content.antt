-- ===== src/Kernel/Fs/Content.antt =====
-- kernel/fs.c: the contents of inodes: `bmap`, `itrunc`, `iput`, `readi`, `writei`.
pub mod Reading
pub mod Keeping
use base_system.Base.{
  ℕ, zero, suc, ◌+◌, ◌-◌, ◌*◌, ◌/◌, ◌%◌, ◌^◌, Bool, true, false, not, ◌&&◌, ◌||◌, Option, none,
  some, List, [], ◌∷◌, ◌++◌, ◌==◌, leb, ltb, if◌then◌else◌, get_or, set, min, length, take, drop,
}
use base_system.Kernel.Action.{Action, ok, panic, sleeps, ◌>>=◌, ◌>>◌, pure, gets, modify, panic_if}
use base_system.Kernel.Text.{Memory, store}
use base_system.Kernel.Fs.{Inode, Fs, block, put_block, uint_at, put_uint, bsize}
use base_system.Kernel.Fs.Blocks.{balloc, bfree}
use base_system.Kernel.Fs.Inodes.{ndirect, nindirect, inode_at, on_inode, iunlock, iupdate}

abbrev pub set_addr : ℕ → ℕ → ℕ → Fs → Fs
set_addr i bn a s = on_inode (λ ip. record ip { addrs = set ip.addrs bn a }) i s

-- The entry `ip->addrs[bn]`, allocated if there is none.
unfoldable pub addr_of : ℕ → ℕ → Action Fs ℕ
addr_of i bn = do
  ip ← gets (λ s. inode_at s i)
  let addr = get_or ip.addrs bn 0
  if addr == 0 then (do a ← balloc ip.dev; modify (set_addr i bn a); pure a) else pure addr

-- The entry `bn` of the indirect block `ind`. The buffer of the block is held while `balloc` runs.
unfoldable pub indirect_addr : ℕ → ℕ → ℕ → Action Fs ℕ
indirect_addr dev ind bn = do
  m ← block dev ind
  let addr = uint_at m (bn * 4)
  if addr == 0
      then (do
        a ← balloc dev
        m1 ← block dev ind
        put_block dev ind (put_uint (bn * 4) a m1)
        pure a)
      else pure addr

unfoldable pub bmap : ℕ → ℕ → Action Fs ℕ
bmap i bn =
    if ltb bn ndirect
    then addr_of i bn
    else if ltb (bn - ndirect) nindirect
    then (do
      ip ← gets (λ s. inode_at s i)
      ind ← addr_of i ndirect
      indirect_addr ip.dev ind (bn - ndirect))
    else (λ s. (panic, s))

-- The loop of `itrunc` over the direct blocks from `bn` on, with `k` rounds left.
unfoldable pub free_direct : ℕ → ℕ → ℕ → Action Fs (Unit {0})
free_direct zero i bn = pure tt
free_direct (suc k) i bn = do
  ip ← gets (λ s. inode_at s i)
  if get_or ip.addrs bn 0 == 0
      then pure tt
      else (do bfree ip.dev (get_or ip.addrs bn 0); modify (set_addr i bn 0))
  free_direct k i (bn + 1)

-- The loop over the entries of the indirect block `ind`.
unfoldable pub free_indirect : ℕ → ℕ → ℕ → ℕ → Action Fs (Unit {0})
free_indirect zero dev ind j = pure tt
free_indirect (suc k) dev ind j = do
  m ← block dev ind
  if uint_at m (j * 4) == 0 then pure tt else bfree dev (uint_at m (j * 4))
  free_indirect k dev ind (j + 1)

unfoldable pub itrunc : ℕ → Action Fs (Unit {0})
itrunc i = do
  free_direct ndirect i 0
  ip ← gets (λ s. inode_at s i)
  let ind = get_or ip.addrs ndirect 0
  if ind == 0 then pure tt else (do
    free_indirect nindirect ip.dev ind 0
    bfree ip.dev ind
    modify (set_addr i ndirect 0))
  modify (on_inode (λ p. record p { size = 0 }) i)
  iupdate i

-- What `iput` does with an inode that has no links left.
unfoldable pub free_inode : ℕ → Action Fs (Unit {0})
free_inode i = do
  ip ← gets (λ s. inode_at s i)
  panic_if ip.busy
  modify (on_inode (λ p. record p { busy = true }) i)
  itrunc i
  modify (on_inode (λ p. record p { type = 0 }) i)
  iupdate i
  modify (on_inode (λ p. record p { busy = false; valid = false }) i)

unfoldable pub iput : ℕ → Action Fs (Unit {0})
iput i = do
  ip ← gets (λ s. inode_at s i)
  if ip.ref == 1 && ip.valid && ip.nlink == 0 then free_inode i else pure tt
  modify (on_inode (λ p. record p { ref = p.ref - 1 }) i)

unfoldable pub iunlockput : ℕ → Action Fs (Unit {0})
iunlockput i = do iunlock i; iput i

-- `struct stat`
pub record Stat : Type 0 where
  pub type : ℕ
  pub dev : ℕ
  pub ino : ℕ
  pub nlink : ℕ
  pub size : ℕ

pub stati : Inode → Stat
stati ip = record { type = ip.type; dev = ip.dev; ino = ip.inum; nlink = ip.nlink; size = ip.size }

abbrev pub t_dir : ℕ
t_dir = 1

abbrev pub t_file : ℕ
t_file = 2

abbrev pub t_dev : ℕ
t_dev = 3

abbrev pub ndev : ℕ
ndev = 10

-- What `readi` or `writei` returns: -1, the bytes or their number, or what the device's function returns.
pub data Io (A : Type 0) : Type 0 where
  refused : Io A
  device : ℕ → Io A
  moved : A → Io A

abbrev pub result_of : {A : Type 0} → Option ℕ → Io A
result_of none = refused
result_of (some r) = device r

-- The call of a device's function: `devices` has what it returns (32 bits), for each `major` with one
-- in the table. A negative `short` has its top bit.
abbrev pub call_device : {A : Type 0} → (ℕ → Option ℕ) → ℕ → Io A
call_device devices major =
    if ltb major (2 ^ 15) && ltb major ndev then result_of (devices major) else refused

-- The `n` bytes of a block from an offset on.
unfoldable pub bytes_at : ℕ → Memory → ℕ → List ℕ
bytes_at zero m p = []
bytes_at (suc n) m p = m p ∷ bytes_at n m (p + 1)

-- The size of the next piece, with `n` bytes left: it ends with its block.
abbrev pub piece : ℕ → ℕ → ℕ
piece n off = min n (bsize - off % bsize)

-- The loop of `readi` with `n` bytes left; a round takes one of them at least, so `n` rounds are enough.
unfoldable pub read_from : ℕ → ℕ → ℕ → ℕ → Action Fs (List ℕ)
read_from zero i off n = pure []
read_from (suc fuel) i off n = if n == 0 then pure [] else (do
  ip ← gets (λ s. inode_at s i)
  b ← bmap i (off / bsize)
  m ← block ip.dev b
  let now = piece n off
  rest ← read_from fuel i (off + now) (n - now)
  pure (bytes_at now m (off % bsize) ++ rest))

-- `uint` sums
abbrev pub uint_sum : ℕ → ℕ → ℕ
uint_sum a b = (a + b) % 2 ^ 32

unfoldable pub readi : (ℕ → Option ℕ) → ℕ → ℕ → ℕ → Action Fs (Io (List ℕ))
readi devices i off n = do
  ip ← gets (λ s. inode_at s i)
  if ip.type == t_dev
      then pure (call_device devices ip.major)
      else if ltb ip.size off || ltb (uint_sum off n) off
      then pure refused
      else (do
        let now = if ltb ip.size (uint_sum off n) then ip.size - off else n
        bytes ← read_from now i off now
        pure (moved bytes))

-- `memmove` of bytes into a block.
unfoldable pub write_bytes : List ℕ → ℕ → Memory → Memory
write_bytes [] p m = m
write_bytes (b ∷ bs) p m = write_bytes bs (p + 1) (store p b m)

-- The loop of `writei`; every round writes a byte at least.
unfoldable pub write_from : ℕ → ℕ → ℕ → List ℕ → Action Fs (Unit {0})
write_from zero i off src = pure tt
write_from (suc fuel) i off src = if length src == 0 then pure tt else (do
  ip ← gets (λ s. inode_at s i)
  b ← bmap i (off / bsize)
  m ← block ip.dev b
  let now = piece (length src) off
  put_block ip.dev b (write_bytes (take now src) (off % bsize) m)
  write_from fuel i (off + now) (drop now src))

-- `MAXFILE*BSIZE`
abbrev pub max_size : ℕ
max_size = (ndirect + nindirect) * bsize

unfoldable pub writei : (ℕ → Option ℕ) → ℕ → List ℕ → ℕ → Action Fs (Io ℕ)
writei devices i src off = do
  ip ← gets (λ s. inode_at s i)
  let n = length src
  if ip.type == t_dev
      then pure (call_device devices ip.major)
      else if ltb ip.size off || ltb (uint_sum off n) off
      then pure refused
      else if ltb max_size (uint_sum off n)
      then pure refused
      else (do
        write_from n i off src
        if ltb 0 n && ltb ip.size (off + n)
            then (do modify (on_inode (λ p. record p { size = off + n }) i); iupdate i)
            else pure tt
        pure (moved n))
