-- ===== src/Kernel/Tty/Editor.antt =====
-- The input buffer of kernel/tty.c seen as two lines: what is committed to be read, and what is edited.
use base_system.Base.{
  ℕ, suc, ◌+◌, ◌-◌, ◌%◌, ◌≡◌, refl, sym, ap, ◌∙◌, inl, inr, true, false, not, ◌&&◌, ◌||◌, List, [],
  ◌∷◌, arith, ◌==◌, ltb, Bool-cases, length,
}
use base_system.Kernel.Tty.{
  input_buf, uint_mod, Input, edit_back, char_of, insert_key, key, ttyintr,
}
use base_system.Kernel.Tty.Window.{
  to_read, to_edit, window, committed, edited, IsInput, length-window,
}
use base_system.Kernel.Tty.Lines.{
  Lines, lines_of, init, typed, edit, init-append, lines_eq, edit_all,
}
use base_system.Kernel.Tty.Insert.{
  last_key, edited_last, edit_back-IsInput, kill_line_lem, HasRoom, insert_key_lem,
}

-- What a key has to keep and to do.
pub record Refines (c : ℕ) (t : Input) : Type 0 where
  pub valid : IsInput (key c t).1
  pub effect : lines_of (key c t).1 ≡ edit c (lines_of t)

Refines-key :
    (c : ℕ) (t u : Input) (l : Lines)
    → (key c t).1 ≡ u
    → edit c (lines_of t) ≡ l
    → IsInput u × (lines_of u ≡ l)
    → Refines c t
Refines-key c t u l e g (v, q) = record { valid = rw e v; effect = ap lines_of e ∙ q ∙ sym g }

killed-IsInput :
    (t : Input) → IsInput t → IsInput (record t { e = t.w }) × (edited (record t { e = t.w }) ≡ [])
killed-IsInput t v =
    let z : to_edit (record t { e = t.w }) ≡ 0 = omega (arith, v.w_in) in
    (
      record {
        storage = v.storage;
        r_in = v.r_in;
        w_in = v.w_in;
        e_in = v.w_in;
        room = omega (arith, z, v.room);
        line = rw z tt;
      },
      ap (λ n. window t.buf t.w n) z,
    )

erased_lem :
    (t : Input)
    → IsInput t
    → (t.e == t.w) ≡ false
    → IsInput (edit_back t) × (edited (edit_back t) ≡ init (edited t))
erased_lem t v h =
    let n : to_edit t ≡ suc (to_edit t - 1) = ground (arith, v.w_in, v.e_in) in
    let (b, l) = edited_last t (to_edit t - 1) v n in
    (
      edit_back-IsInput t (to_edit t - 1) v n,
      sym (init-append (edited (edit_back t)) (last_key t)) ∙ ap init (sym l),
    )

empty_draft : (t : Input) → IsInput t → (t.e == t.w) ≡ true → init (edited t) ≡ edited t
empty_draft t v h = let z : to_edit t ≡ 0 = ground (arith, v.w_in) in rw z refl

room_test :
    (t : Input)
    → IsInput t
    → ltb ((t.e + uint_mod - t.r) % uint_mod) input_buf
      ≡ ltb (length (committed t) + length (edited t)) input_buf
room_test t v =
    let a = length-window t.buf t.r (to_read t) in
    let b = length-window t.buf t.w (to_edit t) in
    let n : to_read t + to_edit t ≡ (t.e + uint_mod - t.r) % uint_mod =
      omega (arith, v.r_in, v.w_in, v.e_in, v.room) in
    rw (a, b, n) refl

typed_key :
    (c : ℕ) (t : Input)
    → IsInput t
    → (c == 16) ≡ false
    → (c == 23) ≡ false
    → (c == 8 || c == 127) ≡ false
    → (c == 3) ≡ false
    → Refines c t
unfolding key
typed_key c t v a b d f =
    let same = ap (λ x. not (c == 0) && x) (room_test t v) in
    elim (Bool-cases (not (c == 0) && ltb ((t.e + uint_mod - t.r) % uint_mod) input_buf)) [
      | inl g ↦
          let room : HasRoom t = ground (arith, g, v.r_in, v.w_in, v.e_in, v.room) in
          let n : (char_of c == 3) ≡ false = ground (arith, f) in
          Refines-key c t (insert_key (char_of c) t).1 (typed (char_of c) (lines_of t))
            (rw (a, b, d, f, g) refl) (rw (a, b, d, f, sym same ∙ g) refl)
            (insert_key_lem (char_of c) t v room n)
      | inr g ↦
          Refines-key c t t (lines_of t) (rw (a, b, d, f, g) refl)
            (rw (a, b, d, f, sym same ∙ g) refl) (v, refl)
    ]

-- A key acts on a valid input buffer as the editor does on its two lines, and keeps it valid.
key_lem : (c : ℕ) (t : Input) → IsInput t → Refines c t
unfolding key
key_lem c t v = elim (Bool-cases (c == 16)) [
  | inl a ↦ Refines-key c t t (lines_of t) (rw a refl) (rw a refl) (v, refl)
  | inr a ↦ elim (Bool-cases (c == 23)) [
    | inl b ↦
        let (x, y) = killed-IsInput t v in
        Refines-key c t (record t { e = t.w }) (record { ready = committed t; draft = [] })
          (rw (a, b) (kill_line_lem (to_edit t) t v refl)) (rw (a, b) refl) (x, lines_eq _ _ refl y)
    | inr b ↦ elim (Bool-cases (c == 8 || c == 127)) [
      | inl d ↦ elim (Bool-cases (t.e == t.w)) [
        | inl f ↦
            Refines-key c t t (record { ready = committed t; draft = init (edited t) })
              (rw (a, b, d, f) refl) (rw (a, b, d) refl)
              (v, lines_eq _ _ refl (sym (empty_draft t v f)))
        | inr f ↦
            let (x, y) = erased_lem t v f in
            Refines-key c t (edit_back t) (record { ready = committed t; draft = init (edited t) })
              (rw (a, b, d, f) refl) (rw (a, b, d) refl) (x, lines_eq _ _ refl y)
      ]
      | inr d ↦ elim (Bool-cases (c == 3)) [
        | inl f ↦
            Refines-key c t t (lines_of t) (rw (a, b, d, f) refl) (rw (a, b, d, f) refl) (v, refl)
        | inr f ↦ typed_key c t v a b d f
      ]
    ]
  ]
]

-- `ttyintr` for any keys acts on a valid input buffer, whose indices may have wrapped around, as the
-- editor does on what is committed and on the draft behind it, and keeps it valid.
pub ttyintr_lem :
    (cs : List ℕ) (t : Input)
    → IsInput t
    → IsInput (ttyintr cs t).1 × (lines_of (ttyintr cs t).1 ≡ edit_all cs (lines_of t))
unfolding ttyintr
ttyintr_lem [] t v = (v, refl)
ttyintr_lem (c ∷ cs) t v =
    let r = key_lem c t v in
    let (x, y) = ttyintr_lem cs (key c t).1 r.valid in (x, y ∙ ap (edit_all cs) r.effect)
