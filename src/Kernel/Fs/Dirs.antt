-- ===== src/Kernel/Fs/Dirs.antt =====
-- kernel/fs.c: directories, and the inode that a path names. `devices` is that of
-- `call_device` in Kernel/Fs/Content; a directory is no device.
pub mod Entries
pub mod Lookup
pub mod Uses
pub mod Walks
pub mod Reachable
pub mod Fuel
use base_system.Base.{
  ℕ, zero, suc, ◌+◌, ◌-◌, ◌*◌, ◌/◌, ◌%◌, Bool, true, false, ◌&&◌, Option, none, some, List, [], ◌∷◌,
  ◌++◌, ◌==◌, leb, ltb, if◌then◌else◌, get_or, length, take, drop, replicate, ℤ, pos, negsuc,
  minus_one,
}
use base_system.Kernel.Action.{Action, ok, panic, sleeps, ◌>>=◌, ◌>>◌, pure, gets, modify, panic_if}
use base_system.Kernel.Text.{Memory, strncmp, strncpy}
use base_system.Kernel.Path.{dirsiz, skipelem}
use base_system.Kernel.Fs.{Inode, Fs}
use base_system.Kernel.Fs.Inodes.{inode_at, iget, idup, ilock, iunlock}
use base_system.Kernel.Fs.Content.{
  Io, refused, device, moved, t_dir, readi, writei, iput, iunlockput, bytes_at,
}

-- `sizeof(struct dirent)`
abbrev pub dirent_size : ℕ
dirent_size = 16

-- The fields `inum` and `name` of the bytes of a directory entry.
abbrev pub inum_of : List ℕ → ℕ
inum_of de = get_or de 0 0 + get_or de 1 0 * 256

abbrev pub name_of : List ℕ → List ℕ
name_of de = drop 2 de

-- Two names in memory, the second from the address `dirsiz` on; zeros follow a shorter one.
abbrev pub name_pair : List ℕ → List ℕ → Memory
name_pair s t i = if ltb i dirsiz then get_or s i 0 else get_or t (i - dirsiz) 0

unfoldable pub namecmp : List ℕ → List ℕ → ℤ
namecmp s t = strncmp (name_pair s t) 0 dirsiz dirsiz

abbrev pub is_zero : ℤ → Bool
is_zero (pos n) = n == 0
is_zero (negsuc n) = false

-- What follows a read of an entry: a panic if it is not whole.
abbrev pub whole_dirent : Io (List ℕ) → Action Fs (List ℕ)
whole_dirent refused s = (panic, s)
whole_dirent (device r) s = (panic, s)
whole_dirent (moved bytes) s = if length bytes == dirent_size then (ok bytes, s) else (panic, s)

unfoldable pub read_dirent : (ℕ → Option ℕ) → ℕ → ℕ → Action Fs (List ℕ)
read_dirent devices i off = readi devices i off dirent_size >>= whole_dirent

-- The loop of `dirlookup` from `off` on, with `k` rounds left: the inode, and what `*poff` is set to.
unfoldable pub lookup_from : ℕ → (ℕ → Option ℕ) → ℕ → List ℕ → ℕ → Action Fs (Option (ℕ × ℕ))
lookup_from zero devices i name off = pure none
lookup_from (suc k) devices i name off =
    let rest = lookup_from k devices i name (off + dirent_size) in
    do
      ip ← gets (λ s. inode_at s i)
      if ltb off ip.size
          then (do
            de ← read_dirent devices i off
            if inum_of de == 0
                then rest
                else if is_zero (namecmp name (name_of de))
                then (do found ← iget ip.dev (inum_of de); pure (some (found, off)))
                else rest)
          else pure none

unfoldable pub dirlookup : (ℕ → Option ℕ) → ℕ → List ℕ → Action Fs (Option (ℕ × ℕ))
dirlookup devices i name = do
  ip ← gets (λ s. inode_at s i)
  if ip.type == t_dir
      then lookup_from (ip.size / dirent_size + 1) devices i name 0
      else (λ s. (panic, s))

-- The loop of `dirlink` for an empty entry: the offset where it stops.
unfoldable pub empty_from : ℕ → (ℕ → Option ℕ) → ℕ → ℕ → Action Fs ℕ
empty_from zero devices i off = pure off
empty_from (suc k) devices i off =
    let rest = empty_from k devices i (off + dirent_size) in
    do
      ip ← gets (λ s. inode_at s i)
      if ltb off ip.size
          then (do de ← read_dirent devices i off; if inum_of de == 0 then pure off else rest)
          else pure off

-- The bytes of the entry that `dirlink` writes: a `ushort` and what `strncpy` makes of the name.
unfoldable pub dirent_bytes : List ℕ → ℕ → List ℕ
dirent_bytes name inum =
    inum % 256
    ∷ inum / 256 % 256
    ∷ bytes_at dirsiz (strncpy dirsiz 0 dirsiz (name_pair name [])) dirsiz

abbrev pub whole_write : Io ℕ → Action Fs ℤ
whole_write refused s = (panic, s)
whole_write (device r) s = (panic, s)
whole_write (moved n) s = if n == dirent_size then (ok (pos 0), s) else (panic, s)

-- `dirlink` after the look-up of the name.
abbrev pub link_new : (ℕ → Option ℕ) → ℕ → List ℕ → ℕ → Option (ℕ × ℕ) → Action Fs ℤ
link_new devices i name inum (some (found, off)) = do iput found; pure minus_one
link_new devices i name inum none = do
  ip ← gets (λ s. inode_at s i)
  off ← empty_from (ip.size / dirent_size + 1) devices i 0
  r ← writei devices i (dirent_bytes name inum) off
  whole_write r

unfoldable pub dirlink : (ℕ → Option ℕ) → ℕ → List ℕ → ℕ → Action Fs ℤ
dirlink devices i name inum = dirlookup devices i name >>= link_new devices i name inum

abbrev pub rootdev : ℕ
rootdev = 1

abbrev pub rootino : ℕ
rootino = 1

-- The end of `namex`, after the last element.
unfoldable pub namex_end : Bool → ℕ → List ℕ → Action Fs (Option (ℕ × List ℕ))
namex_end true i name = do iput i; pure none
namex_end false i name = pure (some (i, name))

abbrev pub is_empty : List ℕ → Bool
is_empty [] = true
is_empty (c ∷ path) = false

-- What follows the look-up of an element in the directory `i`.
abbrev pub walk_on :
    ℕ → (ℕ → Action Fs (Option (ℕ × List ℕ))) → Option (ℕ × ℕ) → Action Fs (Option (ℕ × List ℕ))
walk_on i go_on none = do iunlockput i; pure none
walk_on i go_on (some (j, off)) = do iunlockput i; go_on j

-- The body of the loop of `namex` after `skipelem`; `go_on` is the next round, from the inode found.
abbrev pub namex_round :
    (ℕ → Option ℕ)
    → Bool
    → ℕ
    → List ℕ
    → List ℕ
    → (ℕ → Action Fs (Option (ℕ × List ℕ)))
    → Action Fs (Option (ℕ × List ℕ))
namex_round devices parent i rest element go_on = do
  ilock i
  ip ← gets (λ s. inode_at s i)
  if ip.type == t_dir
      then if parent && is_empty rest
        then (do iunlock i; pure (some (i, element)))
        else (do next ← dirlookup devices i element; walk_on i go_on next)
      else (do iunlockput i; pure none)

-- The loop of `namex`. The result has the name that is left in `name`.
unfoldable pub namex_from :
    ℕ → (ℕ → Option ℕ) → Bool → ℕ → List ℕ → List ℕ → Action Fs (Option (ℕ × List ℕ))
namex_from zero devices parent i path name = namex_end parent i name
namex_from (suc k) devices parent i path name = elim (skipelem path name) [
  | none ↦ namex_end parent i name
  | some (rest, element) ↦
      namex_round devices parent i rest element (λ j. namex_from k devices parent j rest element)
]

-- `proc->cwd` is `cwd`. Every round takes a character of the path at least.
unfoldable pub namex : (ℕ → Option ℕ) → ℕ → List ℕ → Bool → List ℕ → Action Fs (Option (ℕ × List ℕ))
namex devices cwd path parent name = do
  i ← if get_or path 0 0 == b'/' then iget rootdev rootino else idup cwd
  namex_from (length path) devices parent i path name

-- The name of `namei` is on its stack.
unfoldable pub namei : (ℕ → Option ℕ) → ℕ → List ℕ → List ℕ → Action Fs (Option ℕ)
namei devices cwd path stack = do
  r ← namex devices cwd path false stack
  pure (elim r [ none ↦ none | some (i, name) ↦ some i ])

unfoldable pub nameiparent : (ℕ → Option ℕ) → ℕ → List ℕ → List ℕ → Action Fs (Option (ℕ × List ℕ))
nameiparent devices cwd path name = namex devices cwd path true name
