-- ===== src/Userspace/Shell/Print/Roundtrip.antt =====
-- The parser of userspace/sh.c on printed commands.
use base_system.Base.{
  ℕ, zero, suc, ◌+◌, ◌≤◌, ◌<◌, ◌≡◌, refl, ◌∙◌, true, false, List, [], ◌∷◌, ◌++◌, arith, ◌==◌,
  if◌then◌else◌, length, length-append, codes, inl, inr,
}
use base_system.Userspace.Shell.{
  strchr, skip, token_at, token_from, gettoken, peek, starts_with, Cmd, exec, redir, pipe, list,
  back, Parsed, done, then_parse, wrap, redir_of, parseredirs, maxargs, parseblock, parseexec,
  parsepipe, parsebacks, parseline, if_read, parsecmd, greater_token, in_word,
}
use base_system.Userspace.Shell.Print.{args_to, print_to, IsWord, AllWords, IsSayable}
use base_system.Userspace.Shell.Print.Words.{
  Ends, Ends-facts, args_to-start, parseredirs_none, parseargs-args_to, gettoken-word, skip-word,
}

-- A printed command starts with no whitespace.
skip-print_to : (c : Cmd) (s : List ℕ) → IsSayable c → Ends s → skip (print_to c s) ≡ print_to c s
unfolding print_to skip strchr
skip-print_to (exec args) s (l, a) e = (args_to-start args s a e).0
skip-print_to (redir c file mode fd) s i e = refl
skip-print_to (pipe l r) s i e = refl
skip-print_to (list l r) s i e = refl
skip-print_to (back c) s i e = refl

-- A printed command in parentheses, if the line inside is read.
parseexec-paren :
    (line : List ℕ → Parsed Cmd) (fuel : ℕ) (c : Cmd) (s : List ℕ)
    → IsSayable c
    → line (print_to c (b')' ∷ s)) ≡ done c (b')' ∷ s)
    → skip s ≡ s
    → parseexec line fuel (b'(' ∷ print_to c (b')' ∷ s))
      ≡ then_parse (parseredirs fuel s) (λ rs u. done (wrap c rs) u)
parseexec-paren line fuel c s i reads bare =
    let inner : skip (print_to c (b')' ∷ s)) ≡ print_to c (b')' ∷ s) =
      skip-print_to c (b')' ∷ s) i refl in
    unfold parseexec parseblock peek starts_with skip strchr gettoken token_from token_at in
    rw (inner, reads) (rw bare refl)

parsepipe-paren :
    (line : List ℕ → Parsed Cmd) (fuel : ℕ) (c : Cmd) (s : List ℕ)
    → IsSayable c
    → line (print_to c (b')' ∷ s)) ≡ done c (b')' ∷ s)
    → skip s ≡ s
    → peek (codes "<>") s ≡ false
    → peek (codes "|") s ≡ false
    → parsepipe line (suc fuel) (b'(' ∷ print_to c (b')' ∷ s)) ≡ done c s
unfolding parsepipe
parsepipe-paren line fuel c s i reads bare no_redir no_pipe =
    rw (parseexec-paren line (suc fuel) c s i reads bare, parseredirs_none fuel s no_redir bare)
      (unfold wrap in rw (no_pipe, bare) refl)

-- The rest of `parseline` behind a pipeline, where the line ends.
parseline-end :
    (n : ℕ) (t s : List ℕ) (c : Cmd)
    → Ends s
    → parsepipe (parseline n) (suc n) t ≡ done c s
    → parseline (suc n) t ≡ done c s
unfolding parseline parsebacks
parseline-end n t s c e h =
    let (bare, _, _, _, amp, semi, _) = Ends-facts s e in
    rw h (rw (amp, bare) (rw (semi, bare) refl))

parsepipe-args :
    (line : List ℕ → Parsed Cmd) (fuel : ℕ) (ws : List (List ℕ)) (s : List ℕ)
    → AllWords ws
    → Ends s
    → length ws < maxargs
    → length ws < suc fuel
    → parsepipe line (suc fuel) (args_to ws s) ≡ done (exec ws) s
unfolding parsepipe parseexec
parsepipe-args line fuel ws s a e l f =
    let (x, y, z) = args_to-start ws s a e in
    let (bare, _, _, bar, _, _, _) = Ends-facts s e in
    rw
      (
        y,
        x,
        parseredirs_none fuel (args_to ws s) z x,
        parseargs-args_to (suc fuel) 0 ws s a e (omega arith) f,
      )
      (unfold wrap in rw (bar, bare) refl)

-- `parsepipe` where the first command is followed by a bar.
parsepipe_bar :
    (line : List ℕ → Parsed Cmd) (fuel : ℕ) (u t v s : List ℕ) (l r : Cmd)
    → parseexec line (suc fuel) u ≡ done l t
    → skip t ≡ t
    → peek (codes "|") t ≡ true
    → (gettoken t).rest ≡ v
    → parsepipe line fuel v ≡ done r s
    → parsepipe line (suc fuel) u ≡ done (pipe l r) s
parsepipe_bar line fuel u t v s l r first bare bar rest second =
    unfold parsepipe in rw first (rw (bar, bare, rest, second) refl)

-- `parseline` where the first pipeline is followed by a semicolon.
parseline_semicolon :
    (fuel : ℕ) (u t v s : List ℕ) (l r : Cmd)
    → parsepipe (parseline fuel) (suc fuel) u ≡ done l t
    → skip t ≡ t
    → peek (codes "&") t ≡ false
    → peek (codes ";") t ≡ true
    → (gettoken t).rest ≡ v
    → parseline fuel v ≡ done r s
    → parseline (suc fuel) u ≡ done (list l r) s
parseline_semicolon fuel u t v s l r first bare amp semi rest second =
    unfold parseline parsebacks in
    rw first (rw (amp, bare) (rw (semi, bare, rest) (rw second refl)))

-- An operator in front of a parenthesis.
bar_facts :
    (u : List ℕ)
    → let t = b'|' ∷ b'(' ∷ u in
      (skip t ≡ t)
      × (peek (codes "<>") t ≡ false)
      × (peek (codes "|") t ≡ true)
      × ((gettoken t).rest ≡ b'(' ∷ u)
unfolding skip peek starts_with strchr gettoken token_from token_at
bar_facts u = (refl, refl, refl, refl)

semicolon_facts :
    (u : List ℕ)
    → let t = b';' ∷ b'(' ∷ u in
      (skip t ≡ t)
      × (peek (codes "<>") t ≡ false)
      × (peek (codes "|") t ≡ false)
      × (peek (codes "&") t ≡ false)
      × (peek (codes ";") t ≡ true)
      × ((gettoken t).rest ≡ b'(' ∷ u)
unfolding skip peek starts_with strchr gettoken token_from token_at
semicolon_facts u = (refl, refl, refl, refl, refl, refl)

ampersand_facts :
    (s : List ℕ)
    → let t = b'&' ∷ s in
      (skip t ≡ t)
      × (peek (codes "<>") t ≡ false)
      × (peek (codes "|") t ≡ false)
      × (peek (codes "&") t ≡ true)
      × ((gettoken t).rest ≡ skip s)
unfolding skip peek starts_with strchr gettoken token_from token_at
ampersand_facts s = (refl, refl, refl, refl, refl)

parsepipe-pipe :
    (line : List ℕ → Parsed Cmd) (fuel : ℕ) (l r : Cmd) (s : List ℕ)
    → IsSayable l
    → IsSayable r
    → let right = print_to r (b')' ∷ s) in
      line (print_to l (b')' ∷ b'|' ∷ b'(' ∷ right)) ≡ done l (b')' ∷ b'|' ∷ b'(' ∷ right)
      → line right ≡ done r (b')' ∷ s)
      → Ends s
      → parsepipe line (suc (suc fuel)) (print_to (pipe l r) s) ≡ done (pipe l r) s
unfolding print_to
parsepipe-pipe line fuel l r s il ir hl hr e =
    let right = print_to r (b')' ∷ s) in
    let t = b'|' ∷ b'(' ∷ right in
    let (bare, no_redir, bar, rest) = bar_facts right in
    let (bare_s, _, none_s, bar_s, _, _, _) = Ends-facts s e in
    let first = parseexec-paren line (suc (suc fuel)) l t il hl bare in
    let second = parsepipe-paren line fuel r s ir hr bare_s none_s bar_s in
    parsepipe_bar line (suc fuel) (b'(' ∷ print_to l (b')' ∷ t)) t (b'(' ∷ right) s l r
      (first ∙ rw (parseredirs_none (suc fuel) t no_redir bare) (unfold wrap in refl)) bare bar rest
      second

parseline-list :
    (fuel : ℕ) (l r : Cmd) (s : List ℕ)
    → IsSayable l
    → IsSayable r
    → let right = print_to r (b')' ∷ s) in
      parseline (suc fuel) (print_to l (b')' ∷ b';' ∷ b'(' ∷ right))
        ≡ done l (b')' ∷ b';' ∷ b'(' ∷ right)
      → parseline fuel right ≡ done r (b')' ∷ s)
      → Ends s
      → parseline (suc (suc fuel)) (print_to (list l r) s) ≡ done (list l r) s
unfolding print_to
parseline-list fuel l r s il ir hl hr e =
    let right = print_to r (b')' ∷ s) in
    let t = b';' ∷ b'(' ∷ right in
    let (bare, no_redir, no_bar, no_amp, semi, rest) = semicolon_facts right in
    let (bare_s, _, none_s, bar_s, _, _, _) = Ends-facts s e in
    let first = parsepipe-paren (parseline (suc fuel)) (suc fuel) l t il hl bare no_redir no_bar in
    let second =
      parseline-end fuel (b'(' ∷ right) s r e
        (parsepipe-paren (parseline fuel) fuel r s ir hr bare_s none_s bar_s) in
    parseline_semicolon (suc fuel) (b'(' ∷ print_to l (b')' ∷ t)) t (b'(' ∷ right) s l r first bare
      no_amp semi rest second

parseline-back :
    (fuel : ℕ) (c : Cmd) (s : List ℕ)
    → IsSayable c
    → parseline (suc fuel) (print_to c (b')' ∷ b'&' ∷ s)) ≡ done c (b')' ∷ b'&' ∷ s)
    → Ends s
    → parseline (suc (suc fuel)) (print_to (back c) s) ≡ done (back c) s
unfolding print_to
parseline-back fuel c s i h e =
    let t = b'&' ∷ s in
    let (bare, no_redir, no_bar, amp, rest) = ampersand_facts s in
    let (bare_s, _, _, _, amp_s, semi_s, _) = Ends-facts s e in
    let first = parsepipe-paren (parseline (suc fuel)) (suc fuel) c t i h bare no_redir no_bar in
    unfold parseline parsebacks in
    rw first (rw (amp, bare, rest, bare_s) (rw (amp_s, bare_s) (rw (semi_s, bare_s) refl)))

RedirFacts : ℕ → List ℕ → Type 0
RedirFacts c u =
    (peek (codes "<>") (c ∷ u) ≡ true)
    × (skip (c ∷ u) ≡ c ∷ u)
    × ((gettoken (c ∷ u)).kind ≡ c)
    × ((gettoken (c ∷ u)).rest ≡ skip u)

less_facts : (u : List ℕ) → RedirFacts b'<' u
unfolding RedirFacts skip peek starts_with strchr gettoken token_from token_at
less_facts u = (refl, refl, refl, refl)

not_greater : (d : ℕ) → in_word d ≡ true → (d == b'>') ≡ false
unfolding strchr
not_greater d h = ground arith

greater_facts : (file s : List ℕ) → IsWord file → RedirFacts b'>' (file ++ s)
unfolding RedirFacts
greater_facts [] s (l, a) = absurd (omega arith)
greater_facts (d ∷ file) s (l, (e, a)) =
    unfold skip peek starts_with strchr gettoken token_from token_at greater_token in
    (refl, refl, rw (not_greater d e) refl, rw (not_greater d e) refl)

parseredirs-one :
    (fuel c : ℕ) (file s : List ℕ)
    → IsWord file
    → Ends s
    → RedirFacts c (file ++ s)
    → parseredirs (suc (suc fuel)) (c ∷ (file ++ s)) ≡ done (redir_of c file ∷ []) s
unfolding RedirFacts
parseredirs-one fuel c file s i e (is_redir, bare, kind, rest) =
    let (bare_s, stops, none_s, _, _, _, _) = Ends-facts s e in
    unfold parseredirs in
    rw (is_redir, bare, kind, rest, skip-word file s i, gettoken-word file s i stops, bare_s)
      (rw (none_s, bare_s) refl)

parseline-redir :
    (fuel c : ℕ) (cmd : Cmd) (file s : List ℕ)
    → IsSayable cmd
    → IsWord file
    → Ends s
    → RedirFacts c (file ++ s)
    → parseline (suc fuel) (print_to cmd (b')' ∷ c ∷ (file ++ s)))
      ≡ done cmd (b')' ∷ c ∷ (file ++ s))
    → parseline (suc (suc fuel)) (b'(' ∷ print_to cmd (b')' ∷ c ∷ (file ++ s)))
      ≡ done (wrap cmd (redir_of c file ∷ [])) s
parseline-redir fuel c cmd file s i w e facts h =
    let t = c ∷ (file ++ s) in
    let bare : skip t ≡ t = unfold RedirFacts in facts.1 in
    let (bare_s, _, _, bar_s, _, _, _) = Ends-facts s e in
    let first = parseexec-paren (parseline (suc fuel)) (suc (suc fuel)) cmd t i h bare in
    parseline-end (suc fuel) (b'(' ∷ print_to cmd (b')' ∷ t)) s (wrap cmd (redir_of c file ∷ [])) e
      (unfold parsepipe in
        rw (first, parseredirs-one fuel c file s w e facts) (rw (bar_s, bare_s) refl))

length-args_to : (ws : List (List ℕ)) (s : List ℕ) → length ws + length s ≤ length (args_to ws s)
unfolding args_to
length-args_to [] s = omega arith
length-args_to (w ∷ ws) s =
    omega (arith, length-args_to ws s, length-append w (b' ' ∷ args_to ws s))

length-print_to : (c : Cmd) (s : List ℕ) → length s ≤ length (print_to c s)
unfolding print_to
length-print_to (exec args) s = omega (arith, length-args_to args s)
length-print_to (redir c file mode fd) s =
    let t = (if fd == 0 then b'<' else b'>') ∷ (file ++ s) in
    omega (arith, length-print_to c (b')' ∷ t), length-append file s)
length-print_to (pipe l r) s = omega (
  arith,
  length-print_to r (b')' ∷ s),
  length-print_to l (b')' ∷ b'|' ∷ b'(' ∷ print_to r (b')' ∷ s)),
)
length-print_to (list l r) s = omega (
  arith,
  length-print_to r (b')' ∷ s),
  length-print_to l (b')' ∷ b';' ∷ b'(' ∷ print_to r (b')' ∷ s)),
)
length-print_to (back c) s = omega (arith, length-print_to c (b')' ∷ b'&' ∷ s))

-- A printed command is read by a line, whatever closes it.
parseline-print_to :
    (c : Cmd) (fuel : ℕ) (s : List ℕ)
    → IsSayable c
    → Ends s
    → length (print_to c s) < fuel
    → parseline fuel (print_to c s) ≡ done c s
unfolding print_to wrap
parseline-print_to c zero s i e h = absurd (omega arith)
parseline-print_to (exec args) (suc fuel) s (l, a) e h =
    parseline-end fuel (args_to args s) s (exec args) e
      (parsepipe-args (parseline fuel) fuel args s a e l (omega (arith, length-args_to args s)))
parseline-print_to (redir c file mode fd) (suc zero) s i e h = absurd (omega arith)
parseline-print_to (redir c file mode fd) (suc (suc fuel)) s (i, w, inl (m, d)) e h =
    let g : suc (length (print_to c (b')' ∷ b'<' ∷ (file ++ s)))) < suc (suc fuel) = rw d at h in
    rw (m, d)
      (parseline-redir fuel b'<' c file s i w e (less_facts (file ++ s))
        (parseline-print_to c (suc fuel) (b')' ∷ b'<' ∷ (file ++ s)) i refl (omega (arith, g))))
parseline-print_to (redir c file mode fd) (suc (suc fuel)) s (i, w, inr (m, d)) e h =
    let g : suc (length (print_to c (b')' ∷ b'>' ∷ (file ++ s)))) < suc (suc fuel) = rw d at h in
    rw (m, d)
      (parseline-redir fuel b'>' c file s i w e (greater_facts file s w)
        (parseline-print_to c (suc fuel) (b')' ∷ b'>' ∷ (file ++ s)) i refl (omega (arith, g))))
parseline-print_to (pipe l r) (suc zero) s i e h = absurd (omega arith)
parseline-print_to (pipe l r) (suc (suc fuel)) s (il, ir) e h =
    let right = print_to r (b')' ∷ s) in
    let left = b')' ∷ b'|' ∷ b'(' ∷ right in
    let k = length-print_to l left in
    parseline-end (suc fuel) (print_to (pipe l r) s) s (pipe l r) e (
      parsepipe-pipe (parseline (suc fuel)) fuel l r s il ir
        (parseline-print_to l (suc fuel) left il refl (omega arith))
        (parseline-print_to r (suc fuel) (b')' ∷ s) ir refl (omega (arith, k))) e)
parseline-print_to (list l r) (suc zero) s i e h = absurd (omega arith)
parseline-print_to (list l r) (suc (suc fuel)) s (il, ir) e h =
    let right = print_to r (b')' ∷ s) in
    let left = b')' ∷ b';' ∷ b'(' ∷ right in
    let k = length-print_to l left in
    parseline-list fuel l r s il ir (parseline-print_to l (suc fuel) left il refl (omega arith))
      (parseline-print_to r fuel (b')' ∷ s) ir refl (omega (arith, k))) e
parseline-print_to (back c) (suc zero) s i e h = absurd (omega arith)
parseline-print_to (back c) (suc (suc fuel)) s i e h =
    parseline-back fuel c s i
      (parseline-print_to c (suc fuel) (b')' ∷ b'&' ∷ s) i refl (omega arith)) e

-- Every command that a line can say is what `parsecmd` makes of its printed form.
pub parsecmd-print_to : (c : Cmd) → IsSayable c → parsecmd (print_to c []) ≡ done c []
unfolding parsecmd if_read skip
parsecmd-print_to c i =
    rw (parseline-print_to c (suc (length (print_to c []))) [] i tt (omega arith)) refl
