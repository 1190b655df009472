-- ===== src/Userspace/Shell.antt =====
-- userspace/sh.c: the parser of command lines. The text from `*ps` to `es` is the list of its
-- characters; the character at `es` is the terminating zero.
pub mod Texts
pub mod Progress
pub mod Print
mod Tests
use base_system.Base.{
  ℕ, zero, suc, ◌+◌, Bool, true, false, not, ◌&&◌, ◌||◌, List, [], ◌∷◌, ◌++◌, ◌==◌, leb,
  if◌then◌else◌, length, codes,
}

-- `struct cmd` and its kinds. A file or argument is the text between its two pointers, which
-- `nulterminate` makes a string of its own.
pub data Cmd : Type 0 where
  exec : List (List ℕ) → Cmd
  redir : Cmd → List ℕ → ℕ → ℕ → Cmd
  pipe list : Cmd → Cmd → Cmd
  back : Cmd → Cmd

-- How a parsing function ends: its value and the rest of the text, or the exit of `panic`.
pub data Parsed (A : Type 0) : Type 0 where
  done : A → List ℕ → Parsed A
  failed out_of_fuel : Parsed A

abbrev pub then_parse : {A B : Type 0} → Parsed A → (A → List ℕ → Parsed B) → Parsed B
then_parse (done a s) f = f a s
then_parse failed f = failed
then_parse out_of_fuel f = out_of_fuel

-- `strchr(set, c)` for a `c` that is not zero.
unfoldable pub strchr : List ℕ → ℕ → Bool
strchr [] c = false
strchr (x ∷ set) c = let rest = strchr set c in if x == c then true else rest

abbrev pub whitespace : List ℕ
whitespace = b' ' ∷ 9 ∷ 13 ∷ 10 ∷ 11 ∷ []

abbrev pub symbols : List ℕ
symbols = codes "<|>&;()"

-- `while(s < es && strchr(whitespace, *s)) s++`
unfoldable pub skip : List ℕ → List ℕ
skip [] = []
skip (c ∷ s) = let rest = skip s in if strchr whitespace c then rest else c ∷ s

abbrev pub in_word : ℕ → Bool
in_word c = not (strchr whitespace c) && not (strchr symbols c)

-- The characters that the loop of `gettoken` over a word passes, and those behind them.
unfoldable pub word : List ℕ → List ℕ
word [] = []
word (c ∷ s) = let rest = word s in if in_word c then c ∷ rest else []

unfoldable pub after_word : List ℕ → List ℕ
after_word [] = []
after_word (c ∷ s) = let rest = after_word s in if in_word c then rest else c ∷ s

pub record Token : Type 0 where
  pub kind : ℕ
  pub text : List ℕ
  pub rest : List ℕ

abbrev pub token_after : ℕ → List ℕ → Token
token_after c s = record { kind = c; text = []; rest = skip s }

-- Behind `>`.
unfoldable pub greater_token : List ℕ → Token
greater_token [] = token_after b'>' []
greater_token (d ∷ r) = if d == b'>' then token_after b'+' r else token_after b'>' (d ∷ r)

-- The token at a first character that is no whitespace.
unfoldable pub token_at : ℕ → List ℕ → Token
token_at c s =
    if strchr (codes "|();&<") c
    then token_after c s
    else if c == b'>'
    then greater_token s
    else record { kind = b'a'; text = word (c ∷ s); rest = skip (after_word (c ∷ s)) }

-- `gettoken` behind the whitespace: its result, the text from `q` to `eq` of a word, and the rest.
unfoldable pub token_from : List ℕ → Token
token_from [] = record { kind = 0; text = []; rest = [] }
token_from (c ∷ r) = token_at c r

unfoldable pub gettoken : List ℕ → Token
gettoken s = token_from (skip s)

-- `peek`, which leaves the text behind the whitespace.
unfoldable pub starts_with : List ℕ → List ℕ → Bool
starts_with toks [] = false
starts_with toks (c ∷ r) = strchr toks c

unfoldable pub peek : List ℕ → List ℕ → Bool
peek toks s = starts_with toks (skip s)

abbrev pub o_rdonly : ℕ
o_rdonly = 0x000

-- `O_WRONLY|O_CREAT`
abbrev pub o_wronly_creat : ℕ
o_wronly_creat = 0x101

-- The commands that `parseredirs` puts around a command, in the order of the text.
pub record Redir : Type 0 where
  pub file : List ℕ
  pub mode : ℕ
  pub fd : ℕ

unfoldable pub wrap : Cmd → List Redir → Cmd
wrap cmd [] = cmd
wrap cmd (r ∷ rs) = wrap (redir cmd r.file r.mode r.fd) rs

abbrev pub redir_of : ℕ → List ℕ → Redir
redir_of tok file =
    if tok == b'<'
    then record { file = file; mode = o_rdonly; fd = 0 }
    else record { file = file; mode = o_wronly_creat; fd = 1 }

-- `parseredirs`
unfoldable pub parseredirs : ℕ → List ℕ → Parsed (List Redir)
parseredirs zero s = out_of_fuel
parseredirs (suc fuel) s =
    let tok = gettoken (skip s) in
    let name = gettoken tok.rest in
    let more = parseredirs fuel name.rest in
    if peek (codes "<>") s
    then if name.kind == b'a'
      then then_parse more (λ rs r. done (redir_of tok.kind name.text ∷ rs) r)
      else failed
    else done [] (skip s)

abbrev pub maxargs : ℕ
maxargs = 10

-- The arguments of a command and what is around it.
abbrev pub Words : Type 0
Words = List (List ℕ) × List Redir

-- The loop of `parseexec`, with `argc` arguments read.
unfoldable pub parseargs : ℕ → ℕ → List ℕ → Parsed Words
parseargs zero argc s = out_of_fuel
parseargs (suc fuel) argc s =
    let tok = gettoken (skip s) in
    let more = parseargs fuel (argc + 1) in
    if peek (codes "|)&;") s
    then done ([], []) (skip s)
    else if tok.kind == 0
    then done ([], []) tok.rest
    else if not (tok.kind == b'a')
    then failed
    else if leb maxargs (argc + 1)
    then failed
    else then_parse (parseredirs (suc fuel) tok.rest)
        (λ rs r. then_parse (more r) (λ ws u. done (tok.text ∷ ws.0, rs ++ ws.1) u))

-- `parseblock`; `parseline` is an argument.
unfoldable pub parseblock : (List ℕ → Parsed Cmd) → ℕ → List ℕ → Parsed Cmd
parseblock parseline fuel s =
    if peek (codes "(") s
    then then_parse (parseline (gettoken (skip s)).rest) (λ cmd r.
      if peek (codes ")") r
      then then_parse (parseredirs fuel (gettoken (skip r)).rest) (λ rs u. done (wrap cmd rs) u)
      else failed)
    else failed

unfoldable pub parseexec : (List ℕ → Parsed Cmd) → ℕ → List ℕ → Parsed Cmd
parseexec parseline fuel s =
    if peek (codes "(") s
    then parseblock parseline fuel (skip s)
    else then_parse (parseredirs fuel (skip s))
        (λ rs r. then_parse (parseargs fuel 0 r) (λ ws u. done (wrap (exec ws.0) (rs ++ ws.1)) u))

unfoldable pub parsepipe : (List ℕ → Parsed Cmd) → ℕ → List ℕ → Parsed Cmd
parsepipe parseline zero s = out_of_fuel
parsepipe parseline (suc fuel) s =
    let right = parsepipe parseline fuel in
    then_parse (parseexec parseline (suc fuel) s) (λ cmd r.
      if peek (codes "|") r
      then then_parse (right (gettoken (skip r)).rest) (λ cmd2 u. done (pipe cmd cmd2) u)
      else done cmd (skip r))

-- `while(peek(ps, es, "&"))` of `parseline`
unfoldable pub parsebacks : ℕ → Cmd → List ℕ → Parsed Cmd
parsebacks zero cmd s = out_of_fuel
parsebacks (suc fuel) cmd s =
    let more = parsebacks fuel (back cmd) (gettoken (skip s)).rest in
    if peek (codes "&") s then more else done cmd (skip s)

unfoldable pub parseline : ℕ → List ℕ → Parsed Cmd
parseline zero s = out_of_fuel
parseline (suc fuel) s =
    let right = parseline fuel in
    then_parse (parsepipe right (suc fuel) s) (λ cmd r.
      then_parse (parsebacks (suc fuel) cmd r) (λ cmd1 u.
        if peek (codes ";") u
        then then_parse (right (gettoken (skip u)).rest) (λ cmd2 v. done (list cmd1 cmd2) v)
        else done cmd1 (skip u)))

-- The test `s != es` of `parsecmd`.
unfoldable pub if_read : Cmd → List ℕ → Parsed Cmd
if_read cmd [] = done cmd []
if_read cmd (c ∷ u) = failed

-- `parsecmd`, with a round for every character and one more.
unfoldable pub parsecmd : List ℕ → Parsed Cmd
parsecmd s = then_parse (parseline (suc (length s)) s) (λ cmd r. if_read cmd (skip r))
