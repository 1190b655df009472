-- ===== src/Kernel/Tty/Typed.antt =====
-- A line from the keyboard of kernel/tty.c to its reader.
use base_system.Base.{
  ℕ, zero, suc, ◌+◌, ◌<◌, ◌≡◌, refl, ap, ap₂, ◌∙◌, Bool, true, false, not, ◌||◌, List, [], ◌∷◌,
  ◌++◌, append-nil, append_assoc, arith, ◌==◌, length, length-append,
}
use base_system.Kernel.Tty.{input_buf, Input, ttyintr, returned, ttyread}
use base_system.Kernel.Tty.Window.{committed, edited, IsInput}
use base_system.Kernel.Tty.Lines.{lines_of, edit, edit_all}
use base_system.Kernel.Tty.Editor.{ttyintr_lem}
use base_system.Kernel.Tty.Reads.{take_line, input_of, answer, ttyread_lem}

-- A key that is stored as it is, and read as it is.
abbrev pub is_plain : ℕ → Bool
is_plain c =
    not
      (c == 0 || c == 3 || c == 4 || c == 8 || c == 10 || c == 13 || c == 16 || c == 23 || c == 127)

abbrev pub ArePlain : List ℕ → Type 0
ArePlain [] = Unit
ArePlain (c ∷ cs) = (is_plain c ≡ true) × ArePlain cs

edit_plain :
    (c : ℕ) (ds : List ℕ)
    → is_plain c ≡ true
    → length ds + 1 < input_buf
    → edit c (record { ready = []; draft = ds }) ≡ record { ready = []; draft = ds ++ c ∷ [] }
edit_plain c ds h l = ground arith

edit_enter :
    (ds : List ℕ)
    → length ds < input_buf
    → edit 13 (record { ready = []; draft = ds }) ≡ record { ready = ds ++ 10 ∷ []; draft = [] }
edit_enter ds l = ground arith

edit_line :
    (cs ds : List ℕ)
    → ArePlain cs
    → length ds + length cs < input_buf
    → edit_all (cs ++ 13 ∷ []) (record { ready = []; draft = ds })
      ≡ record { ready = ds ++ cs ++ 10 ∷ []; draft = [] }
edit_line [] ds h l = rw append-nil (edit_enter ds (omega arith))
edit_line (c ∷ cs) ds (p, h) l =
    let n = length-append ds (c ∷ []) in
    ap (edit_all (cs ++ 13 ∷ [])) (edit_plain c ds p (omega arith))
    ∙ edit_line cs (ds ++ c ∷ []) h (omega (arith, n, l))
    ∙ ap (λ xs. record { ready = xs ++ 10 ∷ []; draft = [] }) (append_assoc ds (c ∷ []) cs)

take_plain :
    (cs : List ℕ) (n : ℕ)
    → ArePlain cs
    → length cs < n
    → take_line n (cs ++ 10 ∷ []) ≡ record { bytes = cs ++ 10 ∷ []; left = []; ends = true }
take_plain cs zero h l = absurd (omega arith)
take_plain [] (suc n) h l = refl
take_plain (c ∷ cs) (suc n) (p, h) l =
    let a : (c == 4) ≡ false = ground arith in
    let b : (c == 10) ≡ false = ground arith in rw (a, b, take_plain cs n h (omega arith)) refl

-- A line typed on a terminal with nothing pending.
abbrev pub typed_line : List ℕ → Input → Input
typed_line cs t = (ttyintr (cs ++ 13 ∷ []) t).1

-- A line of fewer than 128 plain characters, typed into a valid empty input buffer and ended by the
-- return key, is what a reader of more bytes than that gets, with a line feed at its end, and the
-- buffer is valid and empty again.
pub typed_roundtrip :
    (killed : Bool) (cs : List ℕ) (n : ℕ) (t : Input)
    → IsInput t
    → committed t ≡ []
    → edited t ≡ []
    → ArePlain cs
    → length cs < input_buf
    → length cs < n
    → (u : Input) × (ttyread killed n (typed_line cs t) ≡ returned (cs ++ 10 ∷ []) u)
      × IsInput u
      × (committed u ≡ [])
      × (edited u ≡ [])
typed_roundtrip killed cs n t v a b p l m =
    let (v1, e) = ttyintr_lem (cs ++ 13 ∷ []) t v in
    let start : lines_of t ≡ record { ready = []; draft = [] } =
      ap₂ (λ x y. record { ready = x; draft = y }) a b in
    let lines = e ∙ ap (edit_all (cs ++ 13 ∷ [])) start ∙ edit_line cs [] p (omega arith) in
    let r = ttyread_lem killed n (typed_line cs t) v1 in
    let k = ap (λ x. take_line n x.ready) lines ∙ take_plain cs n p m in
    (
      input_of (ttyread killed n (typed_line cs t)),
      r.result ∙ ap (λ x. answer killed n x (input_of (ttyread killed n (typed_line cs t)))) k,
      r.valid,
      r.left ∙ ap (λ x. x.left) k,
      r.draft ∙ ap (λ x. x.draft) lines,
    )
