-- ===== src/Userspace/Shell/Progress.antt =====
-- The parser of userspace/sh.c and its fuel.
use base_system.Base.{
  ℕ, zero, suc, ◌+◌, ◌≤◌, ◌<◌, ◌≡◌, refl, Bool, true, false, not, List, [], ◌∷◌, ◌++◌, arith, ◌==◌,
  leb, if◌then◌else◌, length, codes, ◌≢◌,
}
use base_system.Userspace.Shell.{
  Cmd, back, Parsed, done, failed, out_of_fuel, then_parse, skip, gettoken, peek, redir_of, maxargs,
  parseredirs, parseargs, parseblock, parseexec, parsepipe, parsebacks, parseline, if_read,
  parsecmd,
}
use base_system.Userspace.Shell.Texts.{
  length-skip, length-gettoken, length-gettoken-peek, length-gettoken_kind,
}

-- The fuel was enough, and `n` characters are left at most.
abbrev pub Fits : {A : Type 0} → ℕ → Parsed A → Type 0
Fits n (done a s) = length s ≤ n
Fits n failed = Unit
Fits n out_of_fuel = 1 ≤ 0

Fits-then :
    {A B : Type 0} (n m : ℕ) (p : Parsed A) (f : A → List ℕ → Parsed B)
    → Fits n p
    → ((a : A) (s : List ℕ) → length s ≤ n → Fits m (f a s))
    → Fits m (then_parse p f)
Fits-then n m (done a s) f h k = k a s h
Fits-then n m failed f h k = tt
Fits-then n m out_of_fuel f h k = absurd (omega arith)

Fits-more : {A : Type 0} (n m : ℕ) (p : Parsed A) → n ≤ m → Fits n p → Fits m p
Fits-more n m (done a s) l h = omega arith
Fits-more n m failed l h = tt
Fits-more n m out_of_fuel l h = h

Fits-if :
    {A : Type 0} (n : ℕ) (p q : Parsed A) (b : Bool)
    → (b ≡ true → Fits n p)
    → (b ≡ false → Fits n q)
    → Fits n (if b then p else q)
Fits-if n p q true hp hq = hp refl
Fits-if n p q false hp hq = hq refl

parseredirs-Fits : (fuel : ℕ) (s : List ℕ) → length s < fuel → Fits (length s) (parseredirs fuel s)
unfolding parseredirs
parseredirs-Fits zero s h = omega arith
parseredirs-Fits (suc fuel) s h =
    let tok = gettoken (skip s) in
    let name = gettoken tok.rest in
    Fits-if (length s) _ _ (peek (codes "<>") s)
      (λ p.
        let l = length-gettoken-peek (codes "<>") s p in
        let k = length-gettoken tok.rest in
        Fits-if (length s) _ _ (name.kind == b'a')
          (λ e.
            Fits-then (length name.rest) (length s) (parseredirs fuel name.rest)
              (λ rs r. done (redir_of tok.kind name.text ∷ rs) r)
              (parseredirs-Fits fuel name.rest (omega arith)) (λ rs r g. omega arith))
          (λ e. tt))
      (λ p. length-skip s)

parseargs-Fits :
    (fuel argc : ℕ) (s : List ℕ) → length s < fuel → Fits (length s) (parseargs fuel argc s)
unfolding parseargs
parseargs-Fits zero argc s h = omega arith
parseargs-Fits (suc fuel) argc s h =
    let tok = gettoken (skip s) in
    Fits-if (length s) _ _ (peek (codes "|)&;") s) (λ p. length-skip s)
      (λ p.
        Fits-if (length s) _ _ (tok.kind == 0)
          (λ z. omega (arith, length-gettoken (skip s), length-skip s))
          (λ z.
            let l = length-gettoken_kind s (ground arith) in
            Fits-if (length s) _ _ (not (tok.kind == b'a')) (λ e. tt)
              (λ e.
                Fits-if (length s) _ _ (leb maxargs (argc + 1)) (λ e. tt)
                  (λ e.
                    Fits-then (length tok.rest) (length s) (parseredirs (suc fuel) tok.rest)
                      (λ rs r.
                        then_parse (parseargs fuel (argc + 1) r)
                          (λ ws u. done (tok.text ∷ ws.0, rs ++ ws.1) u))
                      (parseredirs-Fits (suc fuel) tok.rest (omega arith))
                      (λ rs r g.
                        Fits-then (length r) (length s) (parseargs fuel (argc + 1) r)
                          (λ ws u. done (tok.text ∷ ws.0, rs ++ ws.1) u)
                          (parseargs-Fits fuel (argc + 1) r (omega arith))
                          (λ ws u k. omega arith))))))

-- What `parseline` must do for the shorter texts inside.
abbrev FitsBelow : ℕ → (List ℕ → Parsed Cmd) → Type 0
FitsBelow n line = (s : List ℕ) → length s < n → Fits (length s) (line s)

parseblock-Fits :
    (line : List ℕ → Parsed Cmd) (fuel : ℕ) (s : List ℕ)
    → FitsBelow (length s) line
    → length s < fuel
    → Fits (length s) (parseblock line fuel s)
unfolding parseblock
parseblock-Fits line fuel s below h =
    let u = (gettoken (skip s)).rest in
    Fits-if (length s) _ _ (peek (codes "(") s)
      (λ p.
        let l = length-gettoken-peek (codes "(") s p in
        Fits-then (length u) (length s) (line u) _ (below u l) (λ cmd r g.
          Fits-if (length s) _ _ (peek (codes ")") r)
            (λ q.
              let v = (gettoken (skip r)).rest in
              let k = length-gettoken-peek (codes ")") r q in
              Fits-then (length v) (length s) (parseredirs fuel v) _
                (parseredirs-Fits fuel v (omega arith)) (λ rs w g'. omega arith))
            (λ q. tt)))
      (λ p. tt)

parseexec-Fits :
    (line : List ℕ → Parsed Cmd) (fuel : ℕ) (s : List ℕ)
    → FitsBelow (length s) line
    → length s < fuel
    → Fits (length s) (parseexec line fuel s)
unfolding parseexec
parseexec-Fits line fuel s below h =
    let l = length-skip s in
    Fits-if (length s) _ _ (peek (codes "(") s)
      (λ p.
        Fits-more (length (skip s)) (length s) (parseblock line fuel (skip s)) l
          (parseblock-Fits line fuel (skip s) (λ u g. below u (omega arith)) (omega arith)))
      (λ p.
        Fits-then (length (skip s)) (length s) (parseredirs fuel (skip s)) _
          (parseredirs-Fits fuel (skip s) (omega arith))
          (λ rs r g.
            Fits-then (length r) (length s) (parseargs fuel 0 r) _
              (parseargs-Fits fuel 0 r (omega arith)) (λ ws u k. omega arith)))

parsepipe-Fits :
    (line : List ℕ → Parsed Cmd) (fuel : ℕ) (s : List ℕ)
    → FitsBelow (length s) line
    → length s < fuel
    → Fits (length s) (parsepipe line fuel s)
unfolding parsepipe
parsepipe-Fits line zero s below h = omega arith
parsepipe-Fits line (suc fuel) s below h =
    Fits-then (length s) (length s) (parseexec line (suc fuel) s) _
      (parseexec-Fits line (suc fuel) s below h)
      (λ cmd r g.
        Fits-if (length s) _ _ (peek (codes "|") r)
          (λ p.
            let u = (gettoken (skip r)).rest in
            let l = length-gettoken-peek (codes "|") r p in
            Fits-then (length u) (length s) (parsepipe line fuel u) _
              (parsepipe-Fits line fuel u (λ v k. below v (omega arith)) (omega arith))
              (λ cmd2 v k. omega arith))
          (λ p. omega (arith, length-skip r)))

parsebacks-Fits :
    (fuel : ℕ) (cmd : Cmd) (s : List ℕ) → length s < fuel → Fits (length s) (parsebacks fuel cmd s)
unfolding parsebacks
parsebacks-Fits zero cmd s h = omega arith
parsebacks-Fits (suc fuel) cmd s h =
    let u = (gettoken (skip s)).rest in
    Fits-if (length s) _ _ (peek (codes "&") s)
      (λ p.
        let l = length-gettoken-peek (codes "&") s p in
        Fits-more (length u) (length s) (parsebacks fuel (back cmd) u) (omega arith)
          (parsebacks-Fits fuel (back cmd) u (omega arith)))
      (λ p. length-skip s)

parseline-Fits : (fuel : ℕ) (s : List ℕ) → length s < fuel → Fits (length s) (parseline fuel s)
unfolding parseline
parseline-Fits zero s h = omega arith
parseline-Fits (suc fuel) s h =
    Fits-then (length s) (length s) (parsepipe (parseline fuel) (suc fuel) s) _
      (parsepipe-Fits (parseline fuel) (suc fuel) s (λ u l. parseline-Fits fuel u (omega arith)) h)
      (λ cmd r g.
        Fits-then (length r) (length s) (parsebacks (suc fuel) cmd r) _
          (parsebacks-Fits (suc fuel) cmd r (omega arith))
          (λ cmd1 u k.
            Fits-if (length s) _ _ (peek (codes ";") u)
              (λ p.
                let v = (gettoken (skip u)).rest in
                let l = length-gettoken-peek (codes ";") u p in
                Fits-then (length v) (length s) (parseline fuel v) _
                  (parseline-Fits fuel v (omega arith)) (λ cmd2 w l2. omega arith))
              (λ p. omega (arith, length-skip u))))

all_read : (cmd : Cmd) (u : List ℕ) → Fits 0 (if_read cmd u)
unfolding if_read
all_read cmd [] = omega arith
all_read cmd (c ∷ u) = tt

-- `parsecmd` ends on every text, with a command or a syntax error: a round for every character and one
-- more are enough for each of its loops and calls.
pub parsecmd-total : (s : List ℕ) → parsecmd s ≢ out_of_fuel
parsecmd-total s e =
    let h : Fits 0 (parsecmd s) =
      unfold parsecmd in
      Fits-then (length s) 0 (parseline (suc (length s)) s) _
        (parseline-Fits (suc (length s)) s (omega arith)) (λ cmd r g. all_read cmd (skip r)) in
    let bad : 1 ≤ 0 = rw e at h in absurd (omega arith)
