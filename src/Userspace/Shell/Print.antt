-- ===== src/Userspace/Shell/Print.antt =====
-- A printer for the commands of userspace/sh.c, with parentheses around every part.
pub mod Words
pub mod Roundtrip
use base_system.Base.{
  ℕ, zero, suc, ◌+◌, ◌≤◌, ◌<◌, ◌≡◌, Bool, true, false, not, ◌&&◌, List, [], ◌∷◌, ◌++◌, ◌==◌,
  if◌then◌else◌, length, ◌⊎◌,
}
use base_system.Userspace.Shell.{
  Cmd, exec, redir, pipe, list, back, in_word, maxargs, o_rdonly, o_wronly_creat,
}

-- The arguments, each with a space behind it, in front of `rest`.
unfoldable pub args_to : List (List ℕ) → List ℕ → List ℕ
args_to [] rest = rest
args_to (w ∷ ws) rest = w ++ (b' ' ∷ args_to ws rest)

-- A command in front of `rest`.
unfoldable pub print_to : Cmd → List ℕ → List ℕ
unfolding args_to
print_to (exec args) rest = args_to args rest
print_to (redir c file mode fd) rest =
    b'(' ∷ print_to c (b')' ∷ (if fd == 0 then b'<' else b'>') ∷ (file ++ rest))
print_to (pipe l r) rest = b'(' ∷ print_to l (b')' ∷ b'|' ∷ b'(' ∷ print_to r (b')' ∷ rest))
print_to (list l r) rest = b'(' ∷ print_to l (b')' ∷ b';' ∷ b'(' ∷ print_to r (b')' ∷ rest))
print_to (back c) rest = b'(' ∷ print_to c (b')' ∷ b'&' ∷ rest)

abbrev pub AllInWord : List ℕ → Type 0
AllInWord [] = Unit
AllInWord (c ∷ w) = (in_word c ≡ true) × AllInWord w

-- A text that is one token: not empty, and without whitespace and symbols.
abbrev pub IsWord : List ℕ → Type 0
IsWord w = (1 ≤ length w) × AllInWord w

abbrev pub AllWords : List (List ℕ) → Type 0
AllWords [] = Unit
AllWords (w ∷ ws) = IsWord w × AllWords ws

-- The commands that a line can say: words for arguments and files, fewer than `MAXARGS` arguments, and
-- the modes of `<` and `>`.
abbrev pub IsSayable : Cmd → Type 0
IsSayable (exec args) = (length args < maxargs) × AllWords args
IsSayable (redir c file mode fd) =
    IsSayable c
    × IsWord file
    × (((mode ≡ o_rdonly) × (fd ≡ 0)) ⊎ ((mode ≡ o_wronly_creat) × (fd ≡ 1)))
IsSayable (pipe l r) = IsSayable l × IsSayable r
IsSayable (list l r) = IsSayable l × IsSayable r
IsSayable (back c) = IsSayable c
