-- ===== src/Kernel/Fs/Dirs/Reachable.antt =====
-- The states of the cache of inodes that the operations of kernel/fs.c lead to.
use base_system.Base.{ℕ, ◌<◌, ◌≡◌, Bool, List, arith, Option}
use base_system.Kernel.Fs.{Fs}
use base_system.Kernel.Fs.Inodes.{inode_at, iget, idup, ilock, iunlock, iupdate, ialloc}
use base_system.Kernel.Fs.Inodes.Cache.{
  IsUnique, idup-IsUnique, ilock-IsUnique, iunlock-IsUnique, iupdate-IsUnique,
}
use base_system.Kernel.Fs.Inodes.Gets.{iget-IsUnique}
use base_system.Kernel.Fs.Content.{readi, writei, itrunc, iput}
use base_system.Kernel.Fs.Content.Keeping.{
  readi-IsUnique, writei-IsUnique, itrunc-IsUnique, iput-IsUnique,
}
use base_system.Kernel.Fs.Dirs.{dirlookup, dirlink, namex}
use base_system.Kernel.Fs.Dirs.Uses.{ialloc-IsUnique, dirlookup-IsUnique, dirlink-IsUnique}
use base_system.Kernel.Fs.Dirs.Walks.{namex-IsUnique}

-- The calls of the file system's operations on inodes, with any arguments.
pub data Step (devices : ℕ → Option ℕ) (s : Fs) : Fs → Type 0 where
  got : (dev inum : ℕ) → Step devices s (iget dev inum s).1
  duplicated : (i : ℕ) → 0 < (inode_at s i).ref → Step devices s (idup i s).1
  locked : (i : ℕ) → Step devices s (ilock i s).1
  unlocked : (i : ℕ) → Step devices s (iunlock i s).1
  updated : (i : ℕ) → Step devices s (iupdate i s).1
  truncated : (i : ℕ) → Step devices s (itrunc i s).1
  put : (i : ℕ) → Step devices s (iput i s).1
  allocated : (dev type : ℕ) → Step devices s (ialloc dev type s).1
  was_read : (i off n : ℕ) → Step devices s (readi devices i off n s).1
  written : (i : ℕ) (src : List ℕ) (off : ℕ) → Step devices s (writei devices i src off s).1
  looked_up : (i : ℕ) (name : List ℕ) → Step devices s (dirlookup devices i name s).1
  linked : (i : ℕ) (name : List ℕ) (inum : ℕ) → Step devices s (dirlink devices i name inum s).1
  walked :
      (cwd : ℕ) (path : List ℕ) (parent : Bool) (name : List ℕ)
      → 0 < (inode_at s cwd).ref
      → Step devices s (namex devices cwd path parent name s).1

-- Any sequence of them.
pub data Reach (devices : ℕ → Option ℕ) (t : Fs) : Fs → Type 0 where
  here : Reach devices t t
  next : {s s' : Fs} → Reach devices t s → Step devices s s' → Reach devices t s'

Step-IsUnique : (devices : ℕ → Option ℕ) (s s' : Fs) → Step devices s s' → IsUnique s → IsUnique s'
Step-IsUnique devices s _ (got dev inum) w = iget-IsUnique dev inum s w
Step-IsUnique devices s _ (duplicated i h) w = idup-IsUnique i s h w
Step-IsUnique devices s _ (locked i) w = ilock-IsUnique i s w
Step-IsUnique devices s _ (unlocked i) w = iunlock-IsUnique i s w
Step-IsUnique devices s _ (updated i) w = iupdate-IsUnique i s w
Step-IsUnique devices s _ (truncated i) w = itrunc-IsUnique i s w
Step-IsUnique devices s _ (put i) w = iput-IsUnique i s w
Step-IsUnique devices s _ (allocated dev type) w = ialloc-IsUnique dev type s w
Step-IsUnique devices s _ (was_read i off n) w = readi-IsUnique devices i off n s w
Step-IsUnique devices s _ (written i src off) w = writei-IsUnique devices i src off s w
Step-IsUnique devices s _ (looked_up i name) w = dirlookup-IsUnique devices i name s w
Step-IsUnique devices s _ (linked i name inum) w = dirlink-IsUnique devices i name inum s w
Step-IsUnique devices s _ (walked cwd path parent name h) w =
    namex-IsUnique devices cwd path parent name s h w

-- After any sequence of the file system's operations on inodes, also ones that panic or go to sleep, from a
-- cache with no entry in use: two entries in use are for different inodes. `idup` is called only for
-- an entry in use, and the current directory of a path walk is one.
pub Reach-IsUnique :
    (devices : ℕ → Option ℕ) (t s : Fs)
    → ((i : ℕ) → (inode_at t i).ref ≡ 0)
    → Reach devices t s
    → IsUnique s
unfolding IsUnique
Reach-IsUnique devices t _ unused here = λ i j a b c d. let u = unused i in absurd (omega arith)
Reach-IsUnique devices t s' unused (next {s} before step) =
    Step-IsUnique devices s s' step (Reach-IsUnique devices t s unused before)
