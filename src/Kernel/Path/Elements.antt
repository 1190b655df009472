-- ===== src/Kernel/Path/Elements.antt =====
-- The elements of a path of kernel/fs.c: the non-empty texts between slashes.
use base_system.Base.{
  ℕ, zero, suc, ◌+◌, ◌-◌, ◌≤◌, ◌≡◌, refl, ap, sym, ◌∙◌, ◌↔◌, inl, inr, false, Option, none, some,
  List, [], ◌∷◌, ◌++◌, arith, ◌==◌, leb, if◌then◌else◌, length, length-append, take, drop,
  Bool-cases,
}
use base_system.Kernel.Path.{dirsiz, skip_slashes, passed, left, copy_name, skipelem}

-- The elements of a path: `word` is the text since the last slash, in reverse order of the split.
unfoldable pub split : List ℕ → List (List ℕ)
split [] = [] ∷ []
split (c ∷ path) =
    let rest = split path in
    if c == b'/' then [] ∷ rest else elim rest [ [] ↦ (c ∷ []) ∷ [] | w ∷ ws ↦ (c ∷ w) ∷ ws ]

unfoldable pub non_empty : List (List ℕ) → List (List ℕ)
non_empty [] = []
non_empty ([] ∷ ws) = non_empty ws
non_empty ((c ∷ w) ∷ ws) = (c ∷ w) ∷ non_empty ws

unfoldable pub elements : List ℕ → List (List ℕ)
unfolding split non_empty
elements path = non_empty (split path)

-- The name in a directory entry: the bytes before the first zero.
unfoldable pub text : List ℕ → List ℕ
text [] = []
text (c ∷ name) = let rest = text name in if c == 0 then [] else c ∷ rest

abbrev pub NoZero : List ℕ → Type 0
NoZero [] = Unit
NoZero (c ∷ s) = ((c == 0) ≡ false) × NoZero s

-- The text up to the first slash, and what is behind it.
split_eq :
    (path : List ℕ)
    → split path ≡ passed path ∷ elim (left path) [ [] ↦ [] | c ∷ rest ↦ split rest ]
unfolding split passed left
split_eq [] = refl
split_eq (c ∷ path) = elim (Bool-cases (c == b'/')) [
  | inl e ↦ rw e refl
  | inr e ↦ rw e (rw (split_eq path) refl)
]

elements_slashes : (path : List ℕ) → elements (skip_slashes path) ≡ elements path
unfolding elements skip_slashes
elements_slashes [] = refl
elements_slashes (c ∷ path) = elim (Bool-cases (c == b'/')) [
  | inl e ↦ rw e (elements_slashes path)
  | inr e ↦ rw e (rw e refl)
]

-- What is behind the first element has the remaining elements.
elements-left :
    (path : List ℕ)
    → elements (left path) ≡ non_empty (elim (left path) [ [] ↦ [] | c ∷ rest ↦ split rest ])
unfolding elements left
elements-left [] = refl
elements-left (c ∷ path) = elim (Bool-cases (c == b'/')) [
  | inl e ↦ rw e (rw e refl)
  | inr e ↦ rw e (elements-left path)
]

-- A path that does not begin with a slash.
abbrev pub Bare : List ℕ → Type 0
Bare [] = Unit
Bare (c ∷ path) = (c == b'/') ≡ false

skip_slashes-Bare : (path : List ℕ) → Bare (skip_slashes path)
unfolding skip_slashes
skip_slashes-Bare [] = tt
skip_slashes-Bare (c ∷ path) = elim (Bool-cases (c == b'/')) [
  | inl e ↦ rw e (skip_slashes-Bare path)
  | inr e ↦ rw e e
]

-- Such a path is its first element and the rest.
elements_cons :
    (c : ℕ) (path : List ℕ)
    → (c == b'/') ≡ false
    → elements (c ∷ path) ≡ passed (c ∷ path) ∷ elements (left (c ∷ path))
unfolding elements
elements_cons c path e =
    rw (split_eq (c ∷ path), elements-left (c ∷ path)) (unfold passed in rw e refl)

elements_empty : (path : List ℕ) → Bare path → elements path ≡ [] → path ≡ []
elements_empty [] b h = refl
elements_empty (c ∷ path) b h = let e = elements_cons c path b in absurd (cc)

text-take : (n : ℕ) (s : List ℕ) → NoZero s → text (take n s) ≡ take n s
unfolding text
text-take zero s h = refl
text-take (suc n) [] h = refl
text-take (suc n) (c ∷ s) (e, h) = rw e (ap (λ r. c ∷ r) (text-take n s h))

text_end : (s rest : List ℕ) → NoZero s → text (s ++ (0 ∷ rest)) ≡ s
unfolding text
text_end [] rest h = refl
text_end (c ∷ s) rest (e, h) = rw e (ap (λ r. c ∷ r) (text_end s rest h))

take_all : (n : ℕ) (s : List ℕ) → length s ≤ n → take n s ≡ s
take_all zero [] h = refl
take_all zero (c ∷ s) h = absurd (omega arith)
take_all (suc n) [] h = refl
take_all (suc n) (c ∷ s) h = ap (λ r. c ∷ r) (take_all n s (omega arith))

text-copy_name : (s name : List ℕ) → NoZero s → text (copy_name s name) ≡ take dirsiz s
unfolding copy_name
text-copy_name s name h = elim (Bool-cases (leb dirsiz (length s))) [
  | inl e ↦ rw e (text-take dirsiz s h)
  | inr e ↦ rw (e, take_all dirsiz s (ground arith)) (text_end s (drop (length s + 1) name) h)
]

length-drop : (n : ℕ) (s : List ℕ) → length (drop n s) ≡ length s - n
length-drop zero s = omega arith
length-drop (suc n) [] = omega arith
length-drop (suc n) (c ∷ s) = omega (arith, length-drop n s)

length-take : (n : ℕ) (s : List ℕ) → n ≤ length s → length (take n s) ≡ n
length-take zero s h = refl
length-take (suc n) [] h = absurd (omega arith)
length-take (suc n) (c ∷ s) h = ap suc (length-take n s (omega arith))

length-copy_name : (s name : List ℕ) → length name ≡ dirsiz → length (copy_name s name) ≡ dirsiz
unfolding copy_name
length-copy_name s name h = elim (Bool-cases (leb dirsiz (length s))) [
  | inl e ↦ rw e (length-take dirsiz s (ground arith))
  | inr e ↦ rw e (
      ground
        (arith, length-append s (0 ∷ drop (length s + 1) name), length-drop (length s + 1) name))
]

passed-NoZero : (path : List ℕ) → NoZero path → NoZero (passed path)
unfolding passed
passed-NoZero [] h = tt
passed-NoZero (c ∷ path) (e, h) = elim (Bool-cases (c == b'/')) [
  | inl s ↦ rw s tt
  | inr s ↦ rw s (e, passed-NoZero path h)
]

skip_slashes-NoZero : (path : List ℕ) → NoZero path → NoZero (skip_slashes path)
unfolding skip_slashes
skip_slashes-NoZero [] h = tt
skip_slashes-NoZero (c ∷ path) (e, h) = elim (Bool-cases (c == b'/')) [
  | inl s ↦ rw s (skip_slashes-NoZero path h)
  | inr s ↦ rw s (e, h)
]

-- What `skipelem` does to a path: none if it has no elements, and otherwise it takes off the first.
pub Skipped : List ℕ → Option (List ℕ × List ℕ) → Type 0
Skipped path none = elements path ≡ []
Skipped path (some (rest, name)) =
    (e : List ℕ) × (elements path ≡ e ∷ elements rest)
    × (text name ≡ take dirsiz e)
    × (length name ≡ dirsiz)
    × Bare rest
    × ((rest ≡ []) ↔ (elements rest ≡ []))

-- The path after its leading slashes.
Skipped-from :
    (path p name : List ℕ)
    → elements p ≡ elements path
    → Bare p
    → NoZero p
    → length name ≡ dirsiz
    → Skipped path (elim p [
      | [] ↦ none
      | c ∷ s ↦ some (skip_slashes (left (c ∷ s)), copy_name (passed (c ∷ s)) name)
    ])
unfolding Skipped
Skipped-from path [] name e b z h = sym e ∙ unfold elements in refl
Skipped-from path (c ∷ s) name e b z h =
    let rest = skip_slashes (left (c ∷ s)) in
    (
      passed (c ∷ s),
      sym e
          ∙ elements_cons c s b
          ∙ ap (λ es. passed (c ∷ s) ∷ es) (sym (elements_slashes (left (c ∷ s)))),
      text-copy_name (passed (c ∷ s)) name (passed-NoZero (c ∷ s) z),
      length-copy_name (passed (c ∷ s)) name h,
      skip_slashes-Bare (left (c ∷ s)),
      (
        λ r. ap elements r ∙ unfold elements in refl,
        elements_empty rest (skip_slashes-Bare (left (c ∷ s))),
      ),
    )

-- For a text without zeros and a name buffer of `DIRSIZ` bytes, `skipelem` answers 0 exactly if the
-- path has no element; otherwise the name is the first `DIRSIZ` characters of the first element, the
-- result has the other elements and no slash in front, and it is empty exactly if there are none.
pub skipelem_lem :
    (path name : List ℕ) → NoZero path → length name ≡ dirsiz → Skipped path (skipelem path name)
unfolding skipelem
skipelem_lem path name z h =
    Skipped-from path (skip_slashes path) name (elements_slashes path) (skip_slashes-Bare path)
      (skip_slashes-NoZero path z) h
