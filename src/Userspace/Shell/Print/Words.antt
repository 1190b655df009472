-- ===== src/Userspace/Shell/Print/Words.antt =====
-- Printed words under `gettoken` of userspace/sh.c.
use base_system.Base.{
  ℕ, zero, suc, ◌+◌, ◌<◌, ◌≡◌, refl, ap, ◌∙◌, true, false, List, [], ◌∷◌, ◌++◌, arith, ◌==◌, leb,
  length, codes,
}
use base_system.Userspace.Shell.{
  strchr, whitespace, symbols, skip, in_word, word, after_word, token_at, token_from, gettoken,
  peek, starts_with, done, then_parse, parseredirs, parseargs, maxargs,
}
use base_system.Userspace.Shell.Print.{args_to, AllInWord, IsWord, AllWords}

-- A text at which a word ends.
abbrev pub Stops : List ℕ → Type 0
Stops [] = Unit
Stops (c ∷ s) = in_word c ≡ false

word-append : (w s : List ℕ) → AllInWord w → Stops s → word (w ++ s) ≡ w
unfolding word
word-append [] [] a h = refl
word-append [] (c ∷ s) a h = rw h refl
word-append (c ∷ w) s (e, a) h = rw e (ap (λ r. c ∷ r) (word-append w s a h))

after_word-append : (w s : List ℕ) → AllInWord w → Stops s → after_word (w ++ s) ≡ s
unfolding after_word
after_word-append [] [] a h = refl
after_word-append [] (c ∷ s) a h = rw h refl
after_word-append (c ∷ w) s (e, a) h = rw e (after_word-append w s a h)

-- A character of a word is no whitespace and starts no other token.
in_word_chars :
    (c : ℕ)
    → in_word c ≡ true
    → (strchr whitespace c ≡ false)
      × (strchr (codes "|();&<") c ≡ false)
      × ((c == b'>') ≡ false)
      × (strchr symbols c ≡ false)
unfolding strchr
in_word_chars c h = (ground arith, ground arith, ground arith, ground arith)

pub gettoken-word :
    (w s : List ℕ)
    → IsWord w
    → Stops s
    → gettoken (w ++ s) ≡ record { kind = b'a'; text = w; rest = skip s }
unfolding gettoken token_from token_at skip
gettoken-word [] s (l, a) h = absurd (omega arith)
gettoken-word (c ∷ w) s (l, (e, a)) h =
    let (x, y, z, _) = in_word_chars c e in
    rw x (rw (y, z, word-append (c ∷ w) s (e, a) h, after_word-append (c ∷ w) s (e, a) h) refl)

pub skip-word : (w s : List ℕ) → IsWord w → skip (w ++ s) ≡ w ++ s
unfolding skip
skip-word [] s (l, a) = absurd (omega arith)
skip-word (c ∷ w) s (l, (e, a)) = rw ((in_word_chars c e).0) refl

-- A set of symbols, in which no character of a word is.
peek-word :
    (toks w s : List ℕ)
    → ((c : ℕ) → strchr symbols c ≡ false → strchr toks c ≡ false)
    → IsWord w
    → peek toks (w ++ s) ≡ false
unfolding peek starts_with skip
peek-word toks [] s k (l, a) = absurd (omega arith)
peek-word toks (c ∷ w) s k (l, (e, a)) = let (x, _, _, z) = in_word_chars c e in rw x (k c z)

pub paren_symbol : (c : ℕ) → strchr symbols c ≡ false → strchr (codes "(") c ≡ false
unfolding strchr
paren_symbol c h = ground arith

pub redir_symbol : (c : ℕ) → strchr symbols c ≡ false → strchr (codes "<>") c ≡ false
unfolding strchr
redir_symbol c h = ground arith

pub end_symbol : (c : ℕ) → strchr symbols c ≡ false → strchr (codes "|)&;") c ≡ false
unfolding strchr
end_symbol c h = ground arith

-- What stands behind a printed command: nothing, or the closing parenthesis of what it is in.
abbrev pub Ends : List ℕ → Type 0
Ends [] = Unit
Ends (c ∷ s) = c ≡ b')'

pub Ends-facts :
    (s : List ℕ)
    → Ends s
    → (skip s ≡ s)
      × Stops s
      × (peek (codes "<>") s ≡ false)
      × (peek (codes "|") s ≡ false)
      × (peek (codes "&") s ≡ false)
      × (peek (codes ";") s ≡ false)
      × (peek (codes "(") s ≡ false)
unfolding skip peek starts_with strchr
Ends-facts [] e = (refl, tt, refl, refl, refl, refl, refl)
Ends-facts (c ∷ s) e = rw e (refl, refl, refl, refl, refl, refl, refl)

-- Printed arguments start with no whitespace, no parenthesis and no redirection.
pub args_to-start :
    (ws : List (List ℕ)) (s : List ℕ)
    → AllWords ws
    → Ends s
    → (skip (args_to ws s) ≡ args_to ws s)
      × (peek (codes "(") (args_to ws s) ≡ false)
      × (peek (codes "<>") (args_to ws s) ≡ false)
unfolding args_to
args_to-start [] s a e = let (x, _, y, _, _, _, z) = Ends-facts s e in (x, z, y)
args_to-start (w ∷ ws) s (i, a) e =
    let u = b' ' ∷ args_to ws s in
    (
      skip-word w u i,
      peek-word (codes "(") w u paren_symbol i,
      peek-word (codes "<>") w u redir_symbol i,
    )

pub parseredirs_none :
    (fuel : ℕ) (s : List ℕ)
    → peek (codes "<>") s ≡ false
    → skip s ≡ s
    → parseredirs (suc fuel) s ≡ done [] s
unfolding parseredirs
parseredirs_none fuel s p k = rw (p, k) refl

parseargs-end :
    (fuel argc : ℕ) (s : List ℕ) → Ends s → parseargs (suc fuel) argc s ≡ done ([], []) s
unfolding parseargs peek starts_with skip strchr gettoken token_from
parseargs-end fuel argc [] e = refl
parseargs-end fuel argc (c ∷ s) e = rw e refl

space_Stops : (s : List ℕ) → Stops (b' ' ∷ s)
unfolding strchr
space_Stops s = refl

skip-space : (s : List ℕ) → skip (b' ' ∷ s) ≡ skip s
unfolding skip strchr
skip-space s = refl

parseargs-word :
    (fuel argc : ℕ) (w v : List ℕ)
    → IsWord w
    → skip v ≡ v
    → peek (codes "<>") v ≡ false
    → argc + 1 < maxargs
    → parseargs (suc fuel) argc (w ++ (b' ' ∷ v))
      ≡ then_parse (parseargs fuel (argc + 1) v) (λ ws u. done (w ∷ ws.0, ws.1) u)
unfolding parseargs
parseargs-word fuel argc w v i x y l =
    let few : leb maxargs (argc + 1) ≡ false = ground arith in
    let spaces : skip (b' ' ∷ v) ≡ v = skip-space v ∙ x in
    rw
      (
        peek-word (codes "|)&;") w (b' ' ∷ v) end_symbol i,
        skip-word w (b' ' ∷ v) i,
        gettoken-word w (b' ' ∷ v) i (space_Stops v),
        few,
        spaces,
        parseredirs_none fuel v y x,
      )
      refl

pub parseargs-args_to :
    (fuel argc : ℕ) (ws : List (List ℕ)) (s : List ℕ)
    → AllWords ws
    → Ends s
    → argc + length ws < maxargs
    → length ws < fuel
    → parseargs fuel argc (args_to ws s) ≡ done (ws, []) s
unfolding args_to
parseargs-args_to zero argc ws s a e l f = absurd (omega arith)
parseargs-args_to (suc fuel) argc [] s a e l f = parseargs-end fuel argc s e
parseargs-args_to (suc fuel) argc (w ∷ ws) s (i, a) e l f =
    let (x, _, y) = args_to-start ws s a e in
    rw
      (
        parseargs-word fuel argc w (args_to ws s) i x y (omega arith),
        parseargs-args_to fuel (argc + 1) ws s a e (omega arith) (omega arith),
      )
      refl
