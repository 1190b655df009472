-- ===== src/Kernel/Path.antt =====
-- kernel/fs.c: path names. A path is the list of its characters before the terminating zero, and a
-- name the `DIRSIZ` bytes of a directory entry.
pub mod Elements
mod Tests
use base_system.Base.{
  ℕ, zero, suc, ◌+◌, Bool, true, false, Option, none, some, List, [], ◌∷◌, ◌++◌, ◌==◌, leb,
  if◌then◌else◌, length, take, drop,
}

abbrev pub dirsiz : ℕ
dirsiz = 14

-- `while(*path == '/') path++`
unfoldable pub skip_slashes : List ℕ → List ℕ
skip_slashes [] = []
skip_slashes (c ∷ path) = let rest = skip_slashes path in if c == b'/' then rest else c ∷ path

-- The characters that `while(*path != '/' && *path != 0) path++` passes, and those that it leaves.
unfoldable pub passed : List ℕ → List ℕ
passed [] = []
passed (c ∷ path) = let rest = passed path in if c == b'/' then [] else c ∷ rest

unfoldable pub left : List ℕ → List ℕ
left [] = []
left (c ∷ path) = let rest = left path in if c == b'/' then c ∷ path else rest

-- `name` after an element is copied to it: no zero follows an element of `DIRSIZ` characters or more.
unfoldable pub copy_name : List ℕ → List ℕ → List ℕ
copy_name s name =
    if leb dirsiz (length s) then take dirsiz s else s ++ (0 ∷ drop (length s + 1) name)

-- `skipelem`: the rest of the path and the name.
unfoldable pub skipelem : List ℕ → List ℕ → Option (List ℕ × List ℕ)
unfolding skip_slashes passed left copy_name
skipelem path name = elim (skip_slashes path) [
  | [] ↦ none
  | c ∷ s ↦ some (skip_slashes (left (c ∷ s)), copy_name (passed (c ∷ s)) name)
]
