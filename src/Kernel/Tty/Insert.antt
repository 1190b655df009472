-- ===== src/Kernel/Tty/Insert.antt =====
-- The changes of the input buffer in kernel/tty.c: a character erased or inserted, a line erased or
-- committed.
use base_system.Base.{
  ℕ, zero, suc, ◌+◌, ◌-◌, ◌%◌, ◌≤◌, ◌<◌, ◌≡◌, refl, sym, ap, ap₂, ◌∙◌, inl, inr, false, ◌||◌, [],
  ◌∷◌, ◌++◌, arith, ◌==◌, Bool-cases, length, get_or, set, length-set, get_or-set_self,
}
use base_system.Kernel.Tty.{
  input_buf, uint_mod, Input, kill_line, edit_back, store_key, commit_line, insert_key, shows,
  wakes,
}
use base_system.Kernel.Tty.Window.{
  to_read, to_edit, window, committed, edited, IsInput, length-window, window-set_apart,
  window_parts,
}
use base_system.Kernel.Tty.Lines.{lines_of, typed, IsOneLine-append, IsOneLine-split, lines_eq}

-- The last character of the draft.
abbrev pub last_key : Input → ℕ
last_key t = get_or t.buf ((t.e + uint_mod - 1) % uint_mod % input_buf) 0

pub edited_last :
    (t : Input) (k : ℕ)
    → IsInput t
    → to_edit t ≡ suc k
    → (to_edit (edit_back t) ≡ k) × (edited t ≡ edited (edit_back t) ++ last_key t ∷ [])
edited_last t k v e =
    let b : to_edit (edit_back t) ≡ k = omega (arith, e, v.w_in, v.e_in) in
    let n : to_edit t ≡ to_edit (edit_back t) + 1 = omega (arith, e, b) in
    let at : (t.w + to_edit (edit_back t)) % uint_mod ≡ (t.e + uint_mod - 1) % uint_mod =
      omega (arith, e, v.w_in, v.e_in) in
    (
      b,
      ap (λ x. window t.buf t.w x) n
          ∙ window_parts t.buf (to_edit (edit_back t)) 1 t.w v.w_in
          ∙ ap
              (λ i. window t.buf t.w (to_edit (edit_back t)) ++ get_or t.buf (i % input_buf) 0 ∷ [])
              at,
    )

pub edit_back-IsInput : (t : Input) (k : ℕ) → IsInput t → to_edit t ≡ suc k → IsInput (edit_back t)
edit_back-IsInput t k v e =
    let (b, l) = edited_last t k v e in
    record {
      storage = v.storage;
      r_in = v.r_in;
      w_in = v.w_in;
      e_in = omega arith;
      room = omega (arith, b, e, v.room);
      line = (IsOneLine-split (edited (edit_back t)) (last_key t) (rw (sym l) v.line)).0;
    }

pub kill_line_lem :
    (k : ℕ) (t : Input) → IsInput t → to_edit t ≡ k → (kill_line k t).1 ≡ record t { e = t.w }
unfolding kill_line
kill_line_lem zero t v e =
    let same : t.e ≡ t.w = omega (arith, e, v.w_in, v.e_in) in ap (λ x. record t { e = x }) same
kill_line_lem (suc k) t v e =
    let (b, l) = edited_last t k v e in
    let more : (t.e == t.w) ≡ false = ground (arith, e) in
    let (_, other) = IsOneLine-split (edited (edit_back t)) (last_key t) (rw (sym l) v.line) in
    rw (more, other) (kill_line_lem k (edit_back t) (edit_back-IsInput t k v e) b)

-- A key with room.
abbrev pub HasRoom : Input → Type 0
HasRoom t = to_read t + to_edit t < input_buf

pub edited-store_key :
    (c : ℕ) (t : Input)
    → IsInput t
    → HasRoom t
    → (to_edit (store_key c t) ≡ suc (to_edit t))
      × (edited (store_key c t) ≡ edited t ++ c ∷ [])
      × (committed (store_key c t) ≡ committed t)
edited-store_key c t v room =
    let b : to_edit (store_key c t) ≡ suc (to_edit t) = omega (arith, v.w_in, v.e_in, room) in
    let buf = set t.buf (t.e % input_buf) c in
    let n : suc (to_edit t) ≡ to_edit t + 1 = omega arith in
    let at : (t.w + to_edit t) % uint_mod ≡ t.e = omega (arith, v.w_in, v.e_in) in
    let self = get_or-set_self t.buf (t.e % input_buf) c 0 (omega (arith, v.storage)) in
    let old =
      window-set_apart t.buf c (to_edit t) t.w t.e v.w_in v.e_in (omega arith)
        (omega (arith, room)) in
    (
      b,
      ap (λ x. window buf t.w x) (b ∙ n)
          ∙ window_parts buf (to_edit t) 1 t.w v.w_in
          ∙ ap (λ i. window buf t.w (to_edit t) ++ get_or buf (i % input_buf) 0 ∷ []) at
          ∙ ap₂ (λ xs x. xs ++ x ∷ []) old self,
      window-set_apart t.buf c (to_read t) t.r t.e v.r_in v.e_in
          (omega (arith, v.r_in, v.w_in, v.e_in, room))
          (omega (arith, v.r_in, v.w_in, v.e_in, room)),
    )

pub committed-commit_line :
    (t : Input)
    → t.r < uint_mod
    → t.w < uint_mod
    → t.e < uint_mod
    → to_read t + to_edit t ≤ input_buf
    → (committed (commit_line t) ≡ committed t ++ edited t) × (edited (commit_line t) ≡ [])
committed-commit_line t a b c h =
    let n : to_read (commit_line t) ≡ to_read t + to_edit t = omega arith in
    let at : (t.r + to_read t) % uint_mod ≡ t.w = omega arith in
    let z : to_edit (commit_line t) ≡ 0 = omega arith in
    (
      ap (λ x. window t.buf t.r x) n
          ∙ window_parts t.buf (to_read t) (to_edit t) t.r a
          ∙ ap (λ i. committed t ++ window t.buf i (to_edit t)) at,
      ap (λ x. window t.buf t.e x) z,
    )

pub store_key-IsInput :
    (c : ℕ) (t : Input) → IsInput t → HasRoom t → (c == 10) ≡ false → IsInput (store_key c t)
store_key-IsInput c t v room h =
    let (b, l, _) = edited-store_key c t v room in
    record {
      storage = length-set t.buf (t.e % input_buf) c ∙ v.storage;
      r_in = v.r_in;
      w_in = v.w_in;
      e_in = omega arith;
      room = omega (arith, b, room);
      line = rw l (IsOneLine-append (edited t) c v.line h);
    }

pub commit_line-IsInput :
    (c : ℕ) (t : Input) → IsInput t → HasRoom t → IsInput (commit_line (store_key c t))
commit_line-IsInput c t v room =
    let (b, _, _) = edited-store_key c t v room in
    let z : to_edit (commit_line (store_key c t)) ≡ 0 = omega arith in
    let n : to_read (commit_line (store_key c t)) ≡ to_read t + suc (to_edit t) =
      omega (arith, v.r_in, v.w_in, v.e_in, room) in
    record {
      storage = length-set t.buf (t.e % input_buf) c ∙ v.storage;
      r_in = v.r_in;
      w_in = omega arith;
      e_in = omega arith;
      room = omega (arith, n, z, room);
      line = rw z tt;
    }

pub full_test :
    (c : ℕ) (t : Input)
    → IsInput t
    → HasRoom t
    → (c == 3) ≡ false
    → (c == 10 || c == 3 || (t.e + 1) % uint_mod == (t.r + input_buf) % uint_mod)
      ≡ (c == 10 || length (committed t) + length (edited t) + 1 == input_buf)
full_test c t v room h =
    let a = length-window t.buf t.r (to_read t) in
    let b = length-window t.buf t.w (to_edit t) in
    let n : to_read t + to_edit t ≡ (t.e + uint_mod - t.r) % uint_mod =
      omega (arith, v.r_in, v.w_in, v.e_in, room) in
    let q : ((t.e + 1) % uint_mod == (t.r + input_buf) % uint_mod)
        ≡ ((t.e + uint_mod - t.r) % uint_mod + 1 == input_buf) =
      ground (arith, v.r_in, v.e_in) in
    rw (a, b, h, n, q) (ground arith)

pub insert_key_lem :
    (c : ℕ) (t : Input)
    → IsInput t
    → HasRoom t
    → (c == 3) ≡ false
    → IsInput (insert_key c t).1 × (lines_of (insert_key c t).1 ≡ typed c (lines_of t))
insert_key_lem c t v room h =
    let same = full_test c t v room h in
    let (b, l, k) = edited-store_key c t v room in
    let v1 = commit_line-IsInput c t v room in
    elim (Bool-cases (c == 10 || length (committed t) + length (edited t) + 1 == input_buf)) [
      | inl f ↦
          let (x, y) =
            committed-commit_line (store_key c t) v.r_in v.w_in (omega arith)
              (omega (arith, b, room)) in
          let e : insert_key c t ≡ (shows c ∷ wakes ∷ [], commit_line (store_key c t)) =
            rw (same ∙ f) refl in
          let g : typed c (lines_of t)
              ≡ record { ready = committed t ++ (edited t ++ c ∷ []); draft = [] } =
            rw f refl in
          rw (e, g) (v1, lines_eq _ _ (x ∙ ap₂ ◌++◌ k l) y)
      | inr f ↦
          let e : insert_key c t ≡ (shows c ∷ [], store_key c t) = rw (same ∙ f) refl in
          let g : typed c (lines_of t)
              ≡ record { ready = committed t; draft = edited t ++ c ∷ [] } =
            rw f refl in
          let n : (c == 10) ≡ false = ground (arith, f) in
          rw (e, g) (store_key-IsInput c t v room n, lines_eq _ _ k l)
    ]
