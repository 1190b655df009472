-- ===== src/Kernel/Tty/Lines.antt =====
-- The editor of lines that the input buffer of kernel/tty.c stands for.
use base_system.Base.{
  ℕ, ◌+◌, ◌≡◌, refl, ap, ap₂, false, not, ◌&&◌, ◌||◌, List, [], ◌∷◌, ◌++◌, ◌==◌, ltb, if◌then◌else◌,
  length,
}
use base_system.Kernel.Tty.{input_buf, Input, char_of}
use base_system.Kernel.Tty.Window.{committed, edited, IsOneLine}

-- The editor on two lines.
pub record Lines : Type 0 where
  pub ready : List ℕ
  pub draft : List ℕ

abbrev pub lines_of : Input → Lines
lines_of t = record { ready = committed t; draft = edited t }

abbrev pub init : List ℕ → List ℕ
init [] = []
init (c ∷ []) = []
init (c ∷ d ∷ cs) = c ∷ init (d ∷ cs)

abbrev pub typed : ℕ → Lines → Lines
typed c l =
    if c == 10 || length l.ready + length l.draft + 1 == input_buf
    then record { ready = l.ready ++ (l.draft ++ c ∷ []); draft = [] }
    else record { ready = l.ready; draft = l.draft ++ c ∷ [] }

-- What a key does: ^W clears the draft, backspace takes its last character, and other keys but ^P and
-- ^C are typed, while there is room.
abbrev pub edit : ℕ → Lines → Lines
edit c l =
    if c == 16
    then l
    else if c == 23
    then record l { draft = [] }
    else if c == 8 || c == 127
    then record l { draft = init l.draft }
    else if c == 3
    then l
    else if not (c == 0) && ltb (length l.ready + length l.draft) input_buf
    then typed (char_of c) l
    else l

pub init-append : (cs : List ℕ) (c : ℕ) → init (cs ++ c ∷ []) ≡ cs
init-append [] c = refl
init-append (d ∷ []) c = refl
init-append (d ∷ b ∷ cs) c = ap (λ x. d ∷ x) (init-append (b ∷ cs) c)

pub IsOneLine-append :
    (cs : List ℕ) (c : ℕ) → IsOneLine cs → (c == 10) ≡ false → IsOneLine (cs ++ c ∷ [])
IsOneLine-append [] c h e = (e, tt)
IsOneLine-append (d ∷ cs) c (a, h) e = (a, IsOneLine-append cs c h e)

pub IsOneLine-split :
    (cs : List ℕ) (c : ℕ) → IsOneLine (cs ++ c ∷ []) → IsOneLine cs × ((c == 10) ≡ false)
IsOneLine-split [] c (e, _) = (tt, e)
IsOneLine-split (d ∷ cs) c (a, h) = let (x, y) = IsOneLine-split cs c h in ((a, x), y)

pub lines_eq : (l m : Lines) → l.ready ≡ m.ready → l.draft ≡ m.draft → l ≡ m
lines_eq l m p q = ap₂ (λ x y. record { ready = x; draft = y }) p q

abbrev pub edit_all : List ℕ → Lines → Lines
edit_all [] l = l
edit_all (c ∷ cs) l = edit_all cs (edit c l)
