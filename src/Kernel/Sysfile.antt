-- ===== src/Kernel/Sysfile.antt =====
-- kernel/sysfile.c: the system calls that change directories, behind the fetching of their arguments.
-- `begin_trans` and `commit_trans` only delimit the transaction whose blocks Kernel/Fs has, and are left
-- out. `devices` is as in Kernel/Fs/Dirs. `stack` is what an array `name` holds at first.
pub mod Empty
use base_system.Base.{
  ℕ, zero, suc, ◌+◌, ◌-◌, ◌*◌, ◌/◌, ◌%◌, ◌^◌, Bool, true, false, not, ◌&&◌, ◌||◌, Option, none,
  some, List, [], ◌∷◌, ◌==◌, leb, ltb, if◌then◌else◌, replicate, codes, ℤ, pos, negsuc, minus_one,
}
use base_system.Kernel.Action.{Action, ok, panic, ◌>>=◌, ◌>>◌, pure, gets, modify, panic_if}
use base_system.Kernel.Fs.{Inode, Fs}
use base_system.Kernel.Fs.Inodes.{inode_at, on_inode, ilock, iunlock, iupdate, ialloc}
use base_system.Kernel.Fs.Content.{t_dir, t_file, t_dev, writei, iput, iunlockput}
use base_system.Kernel.Fs.Dirs.{
  dirent_size, inum_of, namecmp, is_zero, read_dirent, dirlookup, whole_write, dirlink, namei,
  nameiparent,
}

-- The fields of `proc` that the calls use.
pub record Caller : Type 0 where
  pub cwd : ℕ
  pub uid : ℕ

abbrev pub is_negative : ℤ → Bool
is_negative (pos n) = false
is_negative (negsuc n) = true

-- `nlink++` and `nlink--` of a `short`
abbrev pub one_link_more : Inode → Inode
one_link_more p = record p { nlink = (p.nlink + 1) % 2 ^ 16 }

abbrev pub one_link_less : Inode → Inode
one_link_less p = record p { nlink = (p.nlink + 65535) % 2 ^ 16 }

-- `bad` of `sys_link`
unfoldable pub link_bad : ℕ → Action Fs ℤ
link_bad i = do ilock i; modify (on_inode one_link_less i); iupdate i; iunlockput i; pure minus_one

-- `sys_link` in the directory of the new name.
unfoldable pub link_in : (ℕ → Option ℕ) → ℕ → Option (ℕ × List ℕ) → Action Fs ℤ
link_in devices i none = link_bad i
link_in devices i (some (d, name)) = do
  ilock d
  dp ← gets (λ s. inode_at s d)
  ip ← gets (λ s. inode_at s i)
  r ← if dp.dev == ip.dev then dirlink devices d name ip.inum else pure minus_one
  iunlockput d
  if is_negative r then link_bad i else (do iput i; pure (pos 0))

-- `sys_link` of the inode of the old name.
unfoldable pub link_inode : (ℕ → Option ℕ) → Caller → List ℕ → List ℕ → Option ℕ → Action Fs ℤ
link_inode devices caller new stack none = pure minus_one
link_inode devices caller new stack (some i) = do
  ilock i
  ip ← gets (λ s. inode_at s i)
  if ip.type == t_dir then (do iunlockput i; pure minus_one) else (do
    modify (on_inode one_link_more i)
    iupdate i
    iunlock i
    found ← nameiparent devices caller.cwd new stack
    link_in devices i found)

unfoldable pub sys_link : (ℕ → Option ℕ) → Caller → List ℕ → List ℕ → List ℕ → Action Fs ℤ
sys_link devices caller old new stack = do
  found ← namei devices caller.cwd old stack
  link_inode devices caller new stack found

-- The loop of `isdirempty` from `off` on, with `k` rounds left.
unfoldable pub unused_from : ℕ → (ℕ → Option ℕ) → ℕ → ℕ → Action Fs Bool
unused_from zero devices i off = pure true
unused_from (suc k) devices i off =
    let rest = unused_from k devices i (off + dirent_size) in
    do
      ip ← gets (λ s. inode_at s i)
      if ltb off ip.size
          then (do de ← read_dirent devices i off; if inum_of de == 0 then rest else pure false)
          else pure true

unfoldable pub isdirempty : (ℕ → Option ℕ) → ℕ → Action Fs Bool
isdirempty devices i = do
  ip ← gets (λ s. inode_at s i)
  unused_from (ip.size / dirent_size + 1) devices i (2 * dirent_size)

-- `bad` of `sys_unlink`
unfoldable pub unlink_bad : ℕ → Action Fs ℤ
unlink_bad d = do iunlockput d; pure minus_one

-- `sys_unlink` after its checks.
unfoldable pub unlink_entry : (ℕ → Option ℕ) → ℕ → ℕ → ℕ → Action Fs ℤ
unlink_entry devices d i off = do
  r ← writei devices d (replicate dirent_size 0) off
  whole_write r
  ip ← gets (λ s. inode_at s i)
  if ip.type == t_dir then (do modify (on_inode one_link_less d); iupdate d) else pure tt
  iunlockput d
  modify (on_inode one_link_less i)
  iupdate i
  iunlockput i
  pure (pos 0)

-- `sys_unlink` of the inode that `dirlookup` finds. A negative `short` has its top bit.
unfoldable pub unlink_found : (ℕ → Option ℕ) → Caller → ℕ → Option (ℕ × ℕ) → Action Fs ℤ
unlink_found devices caller d none = unlink_bad d
unlink_found devices caller d (some (i, off)) = do
  ilock i
  ip ← gets (λ s. inode_at s i)
  panic_if (ip.nlink == 0 || leb (2 ^ 15) ip.nlink)
  empty ← if ip.type == t_dir then isdirempty devices i else pure true
  if not empty || (not (caller.uid == 0) && not (ip.uid == caller.uid))
      then (do iunlockput i; unlink_bad d)
      else unlink_entry devices d i off

-- `sys_unlink` in the directory of the name.
unfoldable pub unlink_in : (ℕ → Option ℕ) → Caller → Option (ℕ × List ℕ) → Action Fs ℤ
unlink_in devices caller none = pure minus_one
unlink_in devices caller (some (d, name)) = do
  ilock d
  if is_zero (namecmp name (codes ".")) || is_zero (namecmp name (codes ".."))
      then unlink_bad d
      else (do found ← dirlookup devices d name; unlink_found devices caller d found)

unfoldable pub sys_unlink : (ℕ → Option ℕ) → Caller → List ℕ → List ℕ → Action Fs ℤ
sys_unlink devices caller path stack = do
  found ← nameiparent devices caller.cwd path stack
  unlink_in devices caller found

-- The entries `.` and `..` that `create` makes in a directory.
unfoldable pub make_dots : (ℕ → Option ℕ) → ℕ → ℕ → Action Fs (Unit {0})
make_dots devices d i = do
  modify (on_inode one_link_more d)
  iupdate d
  ip ← gets (λ s. inode_at s i)
  r ← dirlink devices i (codes ".") ip.inum
  panic_if (is_negative r)
  dp ← gets (λ s. inode_at s d)
  r2 ← dirlink devices i (codes "..") dp.inum
  panic_if (is_negative r2)

-- `create` after the look-up of the name in its directory.
unfoldable pub create_found :
    (ℕ → Option ℕ) → Caller → ℕ → ℕ → ℕ → ℕ → List ℕ → Option (ℕ × ℕ) → Action Fs (Option ℕ)
create_found devices caller type major minor d name (some (i, off)) = do
  iunlockput d
  ilock i
  ip ← gets (λ s. inode_at s i)
  if type == t_file && ip.type == t_file then pure (some i) else (do iunlockput i; pure none)
create_found devices caller type major minor d name none = do
  dp ← gets (λ s. inode_at s d)
  i ← ialloc dp.dev type
  ilock i
  modify (on_inode (λ p. record p { major = major; minor = minor; nlink = 1; uid = caller.uid }) i)
  iupdate i
  if type == t_dir then make_dots devices d i else pure tt
  ip ← gets (λ s. inode_at s i)
  r ← dirlink devices d name ip.inum
  panic_if (is_negative r)
  iunlockput d
  pure (some i)

unfoldable pub create_in :
    (ℕ → Option ℕ) → Caller → ℕ → ℕ → ℕ → Option (ℕ × List ℕ) → Action Fs (Option ℕ)
create_in devices caller type major minor none = pure none
create_in devices caller type major minor (some (d, name)) = do
  ilock d
  found ← dirlookup devices d name
  create_found devices caller type major minor d name found

unfoldable pub create : (ℕ → Option ℕ) → Caller → List ℕ → ℕ → ℕ → ℕ → List ℕ → Action Fs (Option ℕ)
create devices caller path type major minor stack = do
  found ← nameiparent devices caller.cwd path stack
  create_in devices caller type major minor found

-- The end of `sys_mkdir`, `sys_mknod` and `sys_touch`.
unfoldable pub created : Option ℕ → Action Fs ℤ
created none = pure minus_one
created (some i) = do iunlockput i; pure (pos 0)

unfoldable pub sys_mkdir : (ℕ → Option ℕ) → Caller → List ℕ → List ℕ → Action Fs ℤ
sys_mkdir devices caller path stack = create devices caller path t_dir 0 0 stack >>= created

-- `create` takes the low 16 bits of the numbers.
unfoldable pub sys_mknod : (ℕ → Option ℕ) → Caller → List ℕ → ℕ → ℕ → List ℕ → Action Fs ℤ
sys_mknod devices caller path major minor stack =
    create devices caller path t_dev (major % 2 ^ 16) (minor % 2 ^ 16) stack >>= created

unfoldable pub sys_touch : (ℕ → Option ℕ) → Caller → List ℕ → List ℕ → Action Fs ℤ
sys_touch devices caller path stack = create devices caller path t_file 0 0 stack >>= created

-- `sys_chdir`: the result, and the directory that `proc->cwd` is then.
unfoldable pub chdir_to : Caller → Option ℕ → Action Fs (ℤ × ℕ)
chdir_to caller none = pure (minus_one, caller.cwd)
chdir_to caller (some i) = do
  ilock i
  ip ← gets (λ s. inode_at s i)
  if ip.type == t_dir
      then (do iunlock i; iput caller.cwd; pure (pos 0, i))
      else (do iunlockput i; pure (minus_one, caller.cwd))

unfoldable pub sys_chdir : (ℕ → Option ℕ) → Caller → List ℕ → List ℕ → Action Fs (ℤ × ℕ)
sys_chdir devices caller path stack = do
  found ← namei devices caller.cwd path stack
  chdir_to caller found
