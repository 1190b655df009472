-- ===== src/Userspace/Grep/Language.antt =====
-- The language of a pattern of userspace/grep.c.
use base_system.Base.{
  ℕ, ◌≡◌, refl, ap, ◌↔◌, inl, inr, Bool, true, false, ◌||◌, List, [], ◌∷◌, ◌++◌, arith, ◌==◌,
  if◌then◌else◌, Bool-cases,
}
use base_system.Userspace.Grep.{matchstar, matchhere, match_from, match}

-- A pattern as a list of items: a character, a starred character, or `$` at the end.
pub data Item : Type 0 where
  one star : ℕ → Item
  end_of_text : Item

pub items : List ℕ → List Item
items [] = []
items (c ∷ []) = if c == b'$' then end_of_text ∷ [] else one c ∷ []
items (c ∷ s ∷ re) =
    let starred = star c ∷ items re in
    let plain = one c ∷ items (s ∷ re) in if s == b'*' then starred else plain

-- A dot stands for every character.
abbrev pub accepts : ℕ → ℕ → Bool
accepts c x = c == b'.' || c == x

abbrev pub All : (ℕ → Bool) → List ℕ → Type 0
All p [] = Unit
All p (x ∷ xs) = (p x ≡ true) × All p xs

-- Some beginning of the text is in the language of the items.
abbrev pub Begins : List Item → List ℕ → Type 0
Begins [] text = Unit
Begins (one c ∷ is) text =
    (x : ℕ) × (rest : List ℕ) × (text ≡ x ∷ rest) × (accepts c x ≡ true) × Begins is rest
Begins (star c ∷ is) text =
    (run : List ℕ) × (rest : List ℕ) × (text ≡ run ++ rest) × All (accepts c) run × Begins is rest
Begins (end_of_text ∷ is) text = text ≡ []

module _ (here : List ℕ → Bool) (Q : List ℕ → Type 0) (c : ℕ)
    (decides : (text : List ℕ) → (here text ≡ true) ↔ Q text) where
  abbrev Starred : List ℕ → Type 0
  Starred text =
      (run : List ℕ) × (rest : List ℕ) × (text ≡ run ++ rest) × All (accepts c) run × Q rest

  matchstar_sound : (text : List ℕ) → matchstar here c text ≡ true → Starred text
  unfolding matchstar
  matchstar_sound [] e = ([], [], refl, tt, (decides []).0 e)
  matchstar_sound (x ∷ text) e = elim (Bool-cases (here (x ∷ text))) [
    | inl now ↦ ([], x ∷ text, refl, tt, (decides (x ∷ text)).0 now)
    | inr later ↦
        let goes_on : (accepts c x ≡ true) × (matchstar here c text ≡ true) = ground arith in
        let (run, rest, eq, all, q) = matchstar_sound text goes_on.1 in
        (x ∷ run, rest, ap (λ t. x ∷ t) eq, (goes_on.0, all), q)
  ]

  matchstar_complete :
      (run rest : List ℕ) → All (accepts c) run → Q rest → matchstar here c (run ++ rest) ≡ true
  unfolding matchstar
  matchstar_complete [] [] a q = (decides []).1 q
  matchstar_complete [] (x ∷ rest) a q = rw ((decides (x ∷ rest)).1 q) refl
  matchstar_complete (x ∷ run) rest a q = ground (arith, a.0, matchstar_complete run rest a.1 q)

  pub matchstar_iff : (text : List ℕ) → (matchstar here c text ≡ true) ↔ Starred text
  matchstar_iff text =
      (matchstar_sound text, λ (run, rest, eq, all, q). rw eq (matchstar_complete run rest all q))

cons-injective : {x y : ℕ} {xs ys : List ℕ} → x ∷ xs ≡ y ∷ ys → (x ≡ y) × (xs ≡ ys)
cons-injective e = (cc, cc)

-- The last character of a pattern.
last_iff : (c : ℕ) (text : List ℕ) → (matchhere (c ∷ []) text ≡ true) ↔ Begins (items (c ∷ [])) text
unfolding matchhere items
last_iff c [] = elim (Bool-cases (c == b'$')) [
  | inl e ↦ rw e (λ _. refl, λ _. refl)
  | inr e ↦ rw e (λ h. absurd (cc), λ (x, rest, eq, a, t). absurd (cc))
]
last_iff c (x ∷ text) = elim (Bool-cases (c == b'$')) [
  | inl e ↦ rw e (λ h. absurd (cc), λ h. absurd (cc))
  | inr e ↦
      rw e
        (λ h. (x, text, refl, h, tt), λ (y, rest, eq, a, t). let p = cons-injective eq in rw p.0 a)
]

matchhere_step :
    (c s x : ℕ) (re text : List ℕ)
    → (s == b'*') ≡ false
    → matchhere (c ∷ s ∷ re) (x ∷ text) ≡ (if accepts c x then matchhere (s ∷ re) text else false)
unfolding matchhere
matchhere_step c s x re text e = rw e refl

items_plain :
    (c s : ℕ) (re : List ℕ) → (s == b'*') ≡ false → items (c ∷ s ∷ re) ≡ one c ∷ items (s ∷ re)
unfolding items
items_plain c s re e = rw e refl

-- A character that is not starred.
plain_iff :
    (c s : ℕ) (re text : List ℕ)
    → (s == b'*') ≡ false
    → ((rest : List ℕ) → (matchhere (s ∷ re) rest ≡ true) ↔ Begins (items (s ∷ re)) rest)
    → (matchhere (c ∷ s ∷ re) text ≡ true) ↔ Begins (one c ∷ items (s ∷ re)) text
plain_iff c s re [] e ih =
    unfold matchhere in rw e (λ h. absurd (cc), λ (x, rest, eq, a, t). absurd (cc))
plain_iff c s re (x ∷ text) e ih = elim (Bool-cases (accepts c x)) [
  | inl a ↦ rw (matchhere_step c s x re text e) (
      rw a (
        λ h. (x, text, refl, a, (ih text).0 h),
        λ (y, rest, eq, a', t). let p = cons-injective eq in rw p.1 ((ih rest).1 t),
      ))
  | inr a ↦ rw (matchhere_step c s x re text e) (
      rw a (
        λ h. absurd (cc),
        λ (y, rest, eq, a', t).
            let p = cons-injective eq in let b : accepts c x ≡ true = rw p.0 a' in absurd (cc),
      ))
]

matchhere_iff : (re text : List ℕ) → (matchhere re text ≡ true) ↔ Begins (items re) text
unfolding matchhere items
matchhere_iff [] text = (λ h. tt, λ h. refl)
matchhere_iff (c ∷ []) text = last_iff c text
matchhere_iff (c ∷ s ∷ re) text = elim (Bool-cases (s == b'*')) [
  | inl e ↦ rw e (matchstar_iff (matchhere re) (Begins (items re)) c (matchhere_iff re) text)
  | inr e ↦ rw (items_plain c s re e) (plain_iff c s re text e (matchhere_iff (s ∷ re)))
]

-- Some part of the text is in the language, from anywhere or, after `^`, from the start.
abbrev pub Occurs : List Item → List ℕ → Type 0
Occurs is text = (before : List ℕ) × (part : List ℕ) × (text ≡ before ++ part) × Begins is part

match_from_sound : (re text : List ℕ) → match_from re text ≡ true → Occurs (items re) text
unfolding match_from
match_from_sound re [] h = ([], [], refl, (matchhere_iff re []).0 h)
match_from_sound re (x ∷ text) h = elim (Bool-cases (matchhere re (x ∷ text))) [
  | inl now ↦ ([], x ∷ text, refl, (matchhere_iff re (x ∷ text)).0 now)
  | inr later ↦
      let (before, part, eq, b) = match_from_sound re text (rw later at h) in
      (x ∷ before, part, ap (λ t. x ∷ t) eq, b)
]

match_from_complete :
    (re before part : List ℕ) → Begins (items re) part → match_from re (before ++ part) ≡ true
unfolding match_from
match_from_complete re [] [] b = (matchhere_iff re []).1 b
match_from_complete re [] (x ∷ part) b = rw ((matchhere_iff re (x ∷ part)).1 b) refl
match_from_complete re (x ∷ before) part b = ground (arith, match_from_complete re before part b)

match_from_iff : (re text : List ℕ) → (match_from re text ≡ true) ↔ Occurs (items re) text
match_from_iff re text = (
  match_from_sound re text,
  λ (before, part, eq, b). rw eq (match_from_complete re before part b),
)

abbrev pub Selects : List ℕ → List ℕ → Type 0
Selects [] text = Occurs (items []) text
Selects (c ∷ re) text = if c == b'^' then Begins (items re) text else Occurs (items (c ∷ re)) text

-- `match` answers 1 exactly if the text has a part, at its start for a pattern with `^`, that is in
-- the language of the pattern.
pub match_iff : (re text : List ℕ) → (match re text ≡ true) ↔ Selects re text
unfolding match
match_iff [] text = match_from_iff [] text
match_iff (c ∷ re) text = elim (Bool-cases (c == b'^')) [
  | inl e ↦ rw e (matchhere_iff re text)
  | inr e ↦ rw e (match_from_iff (c ∷ re) text)
]
