-- ===== src/Kernel/Fs/Dirs/Walks.antt =====
-- The walk of a path in kernel/fs.c, and the cache of inodes.
use base_system.Base.{
  ℕ, zero, suc, ◌<◌, Bool, true, false, ◌&&◌, Option, none, some, Option-cases, List, ◌==◌, length,
  get_or, Bool-cases, inl, inr,
}
use base_system.Kernel.Action.{Action, pure, Keeps, keeps_then, ◌>>◌}
use base_system.Kernel.Path.{skipelem}
use base_system.Kernel.Fs.{Fs}
use base_system.Kernel.Fs.Inodes.{inode_at, iget, idup, ilock, iunlock}
use base_system.Kernel.Fs.Inodes.Cache.{IsUnique, idup-IsUnique, ilock-IsUnique, iunlock-IsUnique}
use base_system.Kernel.Fs.Inodes.Gets.{iget-IsUnique}
use base_system.Kernel.Fs.Content.{t_dir, iput, iunlockput}
use base_system.Kernel.Fs.Content.Keeping.{iput-IsUnique, iunlockput-IsUnique}
use base_system.Kernel.Fs.Dirs.{
  dirlookup, rootdev, rootino, namex_end, is_empty, walk_on, namex_round, namex_from, namex,
}
use base_system.Kernel.Fs.Dirs.Uses.{dirlookup-IsUnique}

namex_end-IsUnique :
    (parent : Bool) (i : ℕ) (name : List ℕ) → Keeps IsUnique (namex_end parent i name)
unfolding namex_end
namex_end-IsUnique true i name s w =
    keeps_then IsUnique (iput i) _ s w (iput-IsUnique i) (λ _ s1 w1. w1)
namex_end-IsUnique false i name s w = w

-- The end of a round that finds nothing.
nothing : (i : ℕ) → Keeps {A = Option (ℕ × List ℕ)} IsUnique (iunlockput i >> pure none)
nothing i s w = keeps_then IsUnique (iunlockput i) _ s w (iunlockput-IsUnique i) (λ _ s1 w1. w1)

walk_on-IsUnique :
    (i : ℕ) (go_on : ℕ → Action Fs (Option (ℕ × List ℕ)))
    → ((j : ℕ) → Keeps IsUnique (go_on j))
    → (next : Option (ℕ × ℕ)) → Keeps IsUnique (walk_on i go_on next)
walk_on-IsUnique i go_on h none s w = nothing i s w
walk_on-IsUnique i go_on h (some (j, off)) s w =
    keeps_then IsUnique (iunlockput i) _ s w (iunlockput-IsUnique i) (λ _. h j)

namex_round-IsUnique :
    (devices : ℕ → Option ℕ) (parent : Bool) (i : ℕ) (rest element : List ℕ)
    (go_on : ℕ → Action Fs (Option (ℕ × List ℕ)))
    → ((j : ℕ) → Keeps IsUnique (go_on j))
    → Keeps IsUnique (namex_round devices parent i rest element go_on)
namex_round-IsUnique devices parent i rest element go_on h s w =
    keeps_then IsUnique (ilock i) _ s w (ilock-IsUnique i) (λ _ s1 w1.
      elim (Bool-cases ((inode_at s1 i).type == t_dir)) [
        | inr e ↦ rw e (nothing i s1 w1)
        | inl e ↦ elim (Bool-cases (parent && is_empty rest)) [
          | inl l ↦
              rw e (
                rw l (keeps_then IsUnique (iunlock i) _ s1 w1 (iunlock-IsUnique i) (λ _ s2 w2. w2)))
          | inr l ↦ rw e (
              rw l (
                keeps_then IsUnique (dirlookup devices i element) _ s1 w1
                  (dirlookup-IsUnique devices i element) (walk_on-IsUnique i go_on h)))
        ]
      ])

namex_from-IsUnique :
    (k : ℕ) (devices : ℕ → Option ℕ) (parent : Bool) (i : ℕ) (path name : List ℕ)
    → Keeps IsUnique (namex_from k devices parent i path name)
unfolding namex_from
namex_from-IsUnique zero devices parent i path name s w = namex_end-IsUnique parent i name s w
namex_from-IsUnique (suc k) devices parent i path name s w =
    elim (Option-cases (skipelem path name)) [
      | inl e ↦ rw (e, namex_from) (namex_end-IsUnique parent i name s w)
      | inr ((rest, element), e) ↦
          rw (e, namex_from)
            (namex_round-IsUnique devices parent i rest element
              (λ j. namex_from k devices parent j rest element)
              (λ j. namex_from-IsUnique k devices parent j rest element) s w)
    ]

-- The current directory of a process is in use.
pub namex-IsUnique :
    (devices : ℕ → Option ℕ) (cwd : ℕ) (path : List ℕ) (parent : Bool) (name : List ℕ) (s : Fs)
    → 0 < (inode_at s cwd).ref
    → IsUnique s
    → IsUnique (namex devices cwd path parent name s).1
unfolding namex idup namex_from
namex-IsUnique devices cwd path parent name s h w =
    let go_on : (i : ℕ) → Keeps IsUnique (namex_from (length path) devices parent i path name) =
      λ i. namex_from-IsUnique (length path) devices parent i path name in
    elim (Bool-cases (get_or path 0 0 == b'/')) [
      | inl e ↦
          rw e
            (keeps_then IsUnique (iget rootdev rootino) _ s w (iget-IsUnique rootdev rootino) go_on)
      | inr e ↦ rw e (go_on cwd _ (idup-IsUnique cwd s h w))
    ]
