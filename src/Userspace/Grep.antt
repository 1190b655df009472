-- ===== src/Userspace/Grep.antt =====
-- userspace/grep.c: the regular expression matcher. A C string is the list of its characters, and the
-- terminating zero is the list's end.
pub mod Language
mod Tests
use base_system.Base.{ℕ, Bool, true, false, ◌&&◌, ◌||◌, List, [], ◌∷◌, ◌==◌, if◌then◌else◌}

-- `c*` and then what `here` accepts, at the beginning of the text. `here` is `matchhere(re, ...)`.
unfoldable pub matchstar : (List ℕ → Bool) → ℕ → List ℕ → Bool
matchstar here c [] = here []
matchstar here c (x ∷ text) =
    let rest = matchstar here c text in
    if here (x ∷ text) then true else if x == c || c == b'.' then rest else false

-- `matchhere`; past the last character of the pattern stands the zero, which is no `*`.
unfoldable pub matchhere : List ℕ → List ℕ → Bool
unfolding matchstar
matchhere [] text = true
matchhere (c ∷ []) [] = c == b'$'
matchhere (c ∷ []) (x ∷ text) = if c == b'$' then false else c == b'.' || c == x
matchhere (c ∷ s ∷ re) text =
    let star = matchstar (matchhere re) c text in
    let rest = matchhere (s ∷ re) in
    if s == b'*' then star else elim text [
      | [] ↦ false
      | x ∷ xs ↦ let later = rest xs in if c == b'.' || c == x then later else false
    ]

-- The loop of `match`: at every position, the end of the text too.
unfoldable pub match_from : List ℕ → List ℕ → Bool
unfolding matchhere
match_from re [] = matchhere re []
match_from re (x ∷ text) =
    let rest = match_from re text in if matchhere re (x ∷ text) then true else rest

unfoldable pub match : List ℕ → List ℕ → Bool
unfolding match_from
match [] text = match_from [] text
match (c ∷ re) text = if c == b'^' then matchhere re text else match_from (c ∷ re) text
