-- ===== src/Kernel/Tty/Reads.antt =====
-- What `ttyread` of kernel/tty.c takes of the lines that are committed.
use base_system.Base.{
  ℕ, zero, suc, ◌+◌, ◌-◌, ◌%◌, ◌≡◌, refl, sym, ap, ap₂, ◌∙◌, inl, inr, Bool, true, false, List, [],
  ◌∷◌, arith, ◌==◌, if◌then◌else◌, Bool-cases, length, get_or,
}
use base_system.Kernel.Tty.{
  input_buf, uint_mod, Input, Reading, returned, interrupted, asleep, copied, ttyread,
}
use base_system.Kernel.Tty.Window.{to_read, window, committed, edited, IsInput}

-- What a reader takes: the bytes, what it leaves, and whether it has them all or a line has ended.
pub record Taken : Type 0 where
  pub bytes : List ℕ
  pub left : List ℕ
  pub ends : Bool

-- A reader of `n` bytes takes them up to a line feed, or up to ^D, which it takes but does not give.
abbrev pub take_line : ℕ → List ℕ → Taken
take_line zero cs = record { bytes = []; left = cs; ends = true }
take_line (suc n) [] = record { bytes = []; left = []; ends = false }
take_line (suc n) (c ∷ cs) =
    let rest = take_line n cs in
    if c == 4
    then record { bytes = []; left = cs; ends = true }
    else if c == 10
    then record { bytes = c ∷ []; left = cs; ends = true }
    else record rest { bytes = c ∷ rest.bytes }

abbrev pub input_of : Reading → Input
input_of (returned bytes t) = t
input_of (interrupted bytes t) = t
input_of (asleep bytes n t) = t

abbrev pub answer : Bool → ℕ → Taken → Input → Reading
answer killed n k t =
    if k.ends
    then returned k.bytes t
    else if killed
    then interrupted k.bytes t
    else asleep k.bytes (n - length k.bytes) t

pub record IsRead (killed : Bool) (n : ℕ) (t : Input) (o : Reading) : Type 0 where
  pub valid : IsInput (input_of o)
  pub left : committed (input_of o) ≡ (take_line n (committed t)).left
  pub draft : edited (input_of o) ≡ edited t
  pub result : o ≡ answer killed n (take_line n (committed t)) (input_of o)

-- The buffer behind its first character.
abbrev read_one : Input → Input
read_one t = record t { r = (t.r + 1) % uint_mod }

first_key :
    (t : Input)
    → IsInput t
    → (t.r == t.w) ≡ false
    → IsInput (read_one t)
      × (committed t ≡ get_or t.buf (t.r % input_buf) 0 ∷ committed (read_one t))
first_key t v h =
    let n : to_read t ≡ suc (to_read (read_one t)) = ground (arith, v.r_in, v.w_in) in
    (
      record {
        storage = v.storage;
        r_in = omega arith;
        w_in = v.w_in;
        e_in = v.e_in;
        room = omega (arith, n, v.room);
        line = v.line;
      },
      ap (λ k. window t.buf t.r k) n,
    )

no_key : (t : Input) → IsInput t → (t.r == t.w) ≡ true → committed t ≡ []
no_key t v h = let z : to_read t ≡ 0 = ground (arith, v.w_in) in rw z refl

input_of-copied : (c : ℕ) (o : Reading) → input_of (copied c o) ≡ input_of o
input_of-copied c (returned bytes t) = refl
input_of-copied c (interrupted bytes t) = refl
input_of-copied c (asleep bytes n t) = refl

copied-answer :
    (killed : Bool) (n c : ℕ) (k : Taken) (t : Input)
    → copied c (answer killed n k t) ≡ answer killed (suc n) (record k { bytes = c ∷ k.bytes }) t
copied-answer killed n c k t = elim (Bool-cases k.ends) [
  | inl e ↦ rw e refl
  | inr e ↦ elim (Bool-cases killed) [
    | inl f ↦ rw (e, f) refl
    | inr f ↦
        let l : suc n - suc (length k.bytes) ≡ n - length k.bytes = omega arith in rw (e, f, l) refl
  ]
]

copied-IsRead :
    (killed : Bool) (n c : ℕ) (t : Input) (o : Reading)
    → committed t ≡ c ∷ committed (read_one t)
    → (c == 4) ≡ false
    → (c == 10) ≡ false
    → IsRead killed n (read_one t) o
    → IsRead killed (suc n) t (copied c o)
copied-IsRead killed n c t o h x y w =
    let same = input_of-copied c o in
    let k : take_line (suc n) (committed t) ≡ (
        let rest = take_line n (committed (read_one t)) in record rest { bytes = c ∷ rest.bytes }) =
      rw (h, x, y) refl in
    record {
      valid = rw same w.valid;
      left = ap committed same ∙ w.left ∙ sym (ap (λ q. q.left) k);
      draft = ap edited same ∙ w.draft;
      result =
          ap (copied c) w.result
          ∙ copied-answer killed n c (take_line n (committed (read_one t))) (input_of o)
          ∙ ap₂ (answer killed (suc n)) (sym k) (sym same);
    }

-- `ttyread` of `n` bytes on a valid input buffer: it takes of the committed characters what
-- `take_line` takes and leaves the rest and the draft; it returns if the bytes are complete, and
-- otherwise it is interrupted if the process is killed, or sleeps, wanting the rest.
pub ttyread_lem :
    (killed : Bool) (n : ℕ) (t : Input) → IsInput t → IsRead killed n t (ttyread killed n t)
unfolding ttyread
ttyread_lem killed zero t v = record { valid = v; left = refl; draft = refl; result = refl }
ttyread_lem killed (suc n) t v = elim (Bool-cases (t.r == t.w)) [
  | inl a ↦
      let z = no_key t v a in
      elim (Bool-cases killed) [
        | inl k ↦
            rw (a, k) (record { valid = v; left = rw z refl; draft = refl; result = rw z refl })
        | inr k ↦
            let e : suc n - 0 ≡ suc n = omega arith in
            rw (a, k)
              (record { valid = v; left = rw z refl; draft = refl; result = rw (z, e) refl })
      ]
  | inr a ↦
      let (v1, h) = first_key t v a in
      let c = get_or t.buf (t.r % input_buf) 0 in
      elim (Bool-cases (c == 4)) [
        | inl x ↦
            rw (a, x)
              (record { valid = v1; left = rw (h, x) refl; draft = refl; result = rw (h, x) refl })
        | inr x ↦ elim (Bool-cases (c == 10)) [
          | inl y ↦
              rw (a, x, y)
                (record {
                  valid = v1;
                  left = rw (h, x, y) refl;
                  draft = refl;
                  result = rw (h, x, y) refl;
                })
          | inr y ↦
              rw (a, x, y)
                (copied-IsRead killed n c t (ttyread killed n (read_one t)) h x y
                  (ttyread_lem killed n (read_one t) v1))
        ]
      ]
]
