-- ===== src/Userspace/Shell/Texts.antt =====
-- The texts that `skip`, `peek` and `gettoken` of userspace/sh.c leave, by their lengths.
use base_system.Base.{
  ℕ, suc, ◌-◌, ◌≢◌, ◌≤◌, ◌<◌, ◌≡◌, refl, true, false, List, [], ◌∷◌, arith, ◌==◌, length, codes,
  Bool-cases, inl, inr,
}
use base_system.Userspace.Shell.{
  strchr, whitespace, skip, in_word, after_word, token_at, gettoken, peek, greater_token,
  token_from, starts_with,
}

pub length-skip : (s : List ℕ) → length (skip s) ≤ length s
unfolding skip
length-skip [] = omega arith
length-skip (c ∷ s) = let h = length-skip s in ground arith

pub length-after_word : (s : List ℕ) → length (after_word s) ≤ length s
unfolding after_word
length-after_word [] = omega arith
length-after_word (c ∷ s) = let h = length-after_word s in ground arith

-- Whitespace is skipped once.
pub skip-skip : (s : List ℕ) → skip (skip s) ≡ skip s
unfolding skip
skip-skip [] = refl
skip-skip (c ∷ s) = elim (Bool-cases (strchr whitespace c)) [
  | inl e ↦ rw e (skip-skip s)
  | inr e ↦ rw e (rw e refl)
]

-- What is neither whitespace nor a token of its own is in a word.
pub in_word_other :
    (c : ℕ)
    → strchr whitespace c ≡ false
    → strchr (codes "|();&<") c ≡ false
    → (c == b'>') ≡ false
    → in_word c ≡ true
unfolding strchr
in_word_other c w t g = rw w (ground arith)

length-word_rest : (c : ℕ) (s : List ℕ) → in_word c ≡ true → length (after_word (c ∷ s)) ≤ length s
unfolding after_word
length-word_rest c s h = rw h (length-after_word s)

length-token_at_other :
    (c : ℕ) (s : List ℕ) → in_word c ≡ true → length (skip (after_word (c ∷ s))) ≤ length s
length-token_at_other c s h =
    omega (arith, length-skip (after_word (c ∷ s)), length-word_rest c s h)

length-greater_token : (s : List ℕ) → length (greater_token s).rest ≤ length s
unfolding greater_token
length-greater_token [] = unfold skip in omega arith
length-greater_token (d ∷ r) = elim (Bool-cases (d == b'>')) [
  | inl e ↦ rw e (omega (arith, length-skip r))
  | inr e ↦ rw e (length-skip (d ∷ r))
]

-- A token takes its first character off the text.
pub length-token_at :
    (c : ℕ) (s : List ℕ) → strchr whitespace c ≡ false → length (token_at c s).rest ≤ length s
unfolding token_at
length-token_at c s w = elim (Bool-cases (strchr (codes "|();&<") c)) [
  | inl t ↦ rw t (length-skip s)
  | inr t ↦ elim (Bool-cases (c == b'>')) [
    | inl g ↦ rw (t, g) (length-greater_token s)
    | inr g ↦ rw (t, g) (length-token_at_other c s (in_word_other c w t g))
  ]
]

skip_first : (s : List ℕ) (c : ℕ) (r : List ℕ) → skip s ≡ c ∷ r → strchr whitespace c ≡ false
unfolding skip
skip_first [] c r e = absurd (cc)
skip_first (d ∷ s) c r e = elim (Bool-cases (strchr whitespace d)) [
  | inl w ↦ skip_first s c r (rw w at e)
  | inr w ↦ let f : d ∷ s ≡ c ∷ r = rw w at e in cc
]

length-token_from :
    (u : List ℕ) (n : ℕ)
    → ((c : ℕ) (r : List ℕ) → u ≡ c ∷ r → strchr whitespace c ≡ false)
    → length u ≤ suc n
    → length (token_from u).rest ≤ n
unfolding token_from
length-token_from [] n first h = omega arith
length-token_from (c ∷ r) n first h = omega (arith, length-token_at c r (first c r refl))

pub length-gettoken : (s : List ℕ) → length (gettoken s).rest ≤ length s
unfolding gettoken
length-gettoken s =
    length-token_from (skip s) (length s) (skip_first s) (omega (arith, length-skip s))

-- Behind a `peek` that found a character, or to a token that is not the end, something is taken off.
length-skip_some : (toks s : List ℕ) (n : ℕ) → peek toks s ≡ true → length (skip s) ≤ n → 1 ≤ n
unfolding peek starts_with
length-skip_some toks s n p h = ground arith

pub length-gettoken-peek :
    (toks s : List ℕ) → peek toks s ≡ true → length (gettoken (skip s)).rest < length s
unfolding gettoken
length-gettoken-peek toks s p =
    let n = length s - 1 in
    let some_left = length-skip_some toks s (length s) p (length-skip s) in
    let h =
      length-token_from (skip (skip s)) n (skip_first (skip s))
        (omega (arith, length-skip (skip s), length-skip s, some_left)) in
    omega (arith, h, some_left)

token_from-end : (u : List ℕ) → (token_from u).kind ≢ 0 → 1 ≤ length u
unfolding token_from
token_from-end [] h = absurd (h refl)
token_from-end (c ∷ r) h = omega arith

pub length-gettoken_kind :
    (s : List ℕ) → (gettoken (skip s)).kind ≢ 0 → length (gettoken (skip s)).rest < length s
unfolding gettoken
length-gettoken_kind s k =
    let n = length s - 1 in
    let l = token_from-end (skip (skip s)) k in
    let h =
      length-token_from (skip (skip s)) n (skip_first (skip s))
        (omega (arith, length-skip (skip s), length-skip s, l)) in
    omega (arith, h, l, length-skip (skip s), length-skip s)
