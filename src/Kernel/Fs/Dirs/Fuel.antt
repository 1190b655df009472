-- ===== src/Kernel/Fs/Dirs/Fuel.antt =====
-- The rounds of `namex` of kernel/fs.c.
use std.Path.{fun_ext}
use base_system.Base.{
  ℕ, zero, suc, ◌≤◌, ◌<◌, ◌≡◌, refl, sym, ap, ◌∙◌, Bool, false, none, some, List, [], ◌∷◌, arith,
  ◌==◌, length, Bool-cases, inl, inr, ◌⊎◌, Option,
}
use base_system.Kernel.Path.{skip_slashes, left, skipelem}
use base_system.Kernel.Fs.Dirs.{namex_end, namex_from, namex_round}

length-skip_slashes : (path : List ℕ) → length (skip_slashes path) ≤ length path
unfolding skip_slashes
length-skip_slashes [] = omega arith
length-skip_slashes (c ∷ path) = elim (Bool-cases (c == b'/')) [
  | inl e ↦ rw e (omega (arith, length-skip_slashes path))
  | inr e ↦ rw e (omega arith)
]

length-left : (path : List ℕ) → length (left path) ≤ length path
unfolding left
length-left [] = omega arith
length-left (c ∷ path) = elim (Bool-cases (c == b'/')) [
  | inl e ↦ rw e (omega arith)
  | inr e ↦ rw e (omega (arith, length-left path))
]

skip_slashes_cases :
    (path : List ℕ)
    → (skip_slashes path ≡ [])
      ⊎ ((c : ℕ) × (s : List ℕ) × (skip_slashes path ≡ c ∷ s) × ((c == b'/') ≡ false))
unfolding skip_slashes
skip_slashes_cases [] = inl refl
skip_slashes_cases (c ∷ path) = elim (Bool-cases (c == b'/')) [
  | inl e ↦ rw e (skip_slashes_cases path)
  | inr e ↦ rw e (inr (c, path, refl, e))
]

skipelem_cons :
    (path name s : List ℕ) (c : ℕ)
    → skip_slashes path ≡ c ∷ s
    → (c == b'/') ≡ false
    → (e : List ℕ) × (skipelem path name ≡ some (skip_slashes (left s), e))
unfolding skipelem left
skipelem_cons path name s c h b = rw (h, skipelem) (rw b (_, refl))

skipelem_end : (path name : List ℕ) → skip_slashes path ≡ [] → skipelem path name ≡ none
unfolding skipelem
skipelem_end path name h = rw (h, skipelem) refl

-- An element takes a character of the path at least.
skipelem_cases :
    (path name : List ℕ)
    → (skipelem path name ≡ none)
      ⊎ ((rest : List ℕ) × (element : List ℕ) × (skipelem path name ≡ some (rest, element))
          × (length rest < length path))
skipelem_cases path name = elim (skip_slashes_cases path) [
  | inl e ↦ inl (skipelem_end path name e)
  | inr (c, s, e, b) ↦
      let (element, h) = skipelem_cons path name s c e b in
      let size : length (skip_slashes path) ≡ suc (length s) = ap length e in
      inr (
        skip_slashes (left s),
        element,
        h,
        omega (arith, size, length-skip_slashes path, length-left s, length-skip_slashes (left s)),
      )
]

namex_from_end :
    (k : ℕ) (devices : ℕ → Option ℕ) (parent : Bool) (i : ℕ) (path name : List ℕ)
    → skipelem path name ≡ none
    → namex_from k devices parent i path name ≡ namex_end parent i name
unfolding namex_from
namex_from_end zero devices parent i path name h = refl
namex_from_end (suc k) devices parent i path name h = rw (h, namex_from) refl

namex_from-some :
    (k : ℕ) (devices : ℕ → Option ℕ) (parent : Bool) (i : ℕ) (path name rest element : List ℕ)
    → skipelem path name ≡ some (rest, element)
    → namex_from (suc k) devices parent i path name
      ≡ namex_round devices parent i rest element (λ j. namex_from k devices parent j rest element)
unfolding namex_from
namex_from-some k devices parent i path name rest element h = rw (h, namex_from) refl

-- Any two numbers of rounds that are at least the length of the path let the loop of `namex` do the same,
-- in every state: the rounds never run out before the path.
pub namex_from_fuel :
    (k l : ℕ) (devices : ℕ → Option ℕ) (parent : Bool) (i : ℕ) (path name : List ℕ)
    → length path ≤ k
    → length path ≤ l
    → namex_from k devices parent i path name ≡ namex_from l devices parent i path name
namex_from_fuel zero l devices parent i path name a b = elim (skipelem_cases path name) [
  | inl e ↦
      namex_from_end zero devices parent i path name e
      ∙ sym (namex_from_end l devices parent i path name e)
  | inr (rest, element, e, d) ↦ absurd (omega arith)
]
namex_from_fuel (suc k) zero devices parent i path name a b = elim (skipelem_cases path name) [
  | inl e ↦
      namex_from_end (suc k) devices parent i path name e
      ∙ sym (namex_from_end zero devices parent i path name e)
  | inr (rest, element, e, d) ↦ absurd (omega arith)
]
namex_from_fuel (suc k) (suc l) devices parent i path name a b = elim (skipelem_cases path name) [
  | inl e ↦
      namex_from_end (suc k) devices parent i path name e
      ∙ sym (namex_from_end (suc l) devices parent i path name e)
  | inr (rest, element, e, d) ↦
      let go_on =
        fun_ext
          (λ j. namex_from_fuel k l devices parent j rest element (omega arith) (omega arith)) in
      namex_from-some k devices parent i path name rest element e
      ∙ ap (namex_round devices parent i rest element) go_on
      ∙ sym (namex_from-some l devices parent i path name rest element e)
]
