-- ===== src/Kernel/Tty/Window.antt =====
-- The ring of kernel/tty.c's input buffer: the characters between two of its wrapping indices.
use base_system.Base.{
  ℕ, zero, suc, ◌+◌, ◌-◌, ◌%◌, ◌≤◌, ◌<◌, ◌≡◌, refl, sym, ap, ap₂, false, List, [], ◌∷◌, ◌++◌, arith,
  ◌==◌, length, get_or, set, get_or-set_ne,
}
use base_system.Kernel.Tty.{input_buf, uint_mod, Input}

-- Wrapping differences of the indices.
abbrev pub to_read : Input → ℕ
to_read t = (t.w + uint_mod - t.r) % uint_mod

abbrev pub to_edit : Input → ℕ
to_edit t = (t.e + uint_mod - t.w) % uint_mod

-- The `n` characters from index `i` on.
abbrev pub window : List ℕ → ℕ → ℕ → List ℕ
window buf i zero = []
window buf i (suc n) = get_or buf (i % input_buf) 0 ∷ window buf ((i + 1) % uint_mod) n

abbrev pub committed : Input → List ℕ
committed t = window t.buf t.r (to_read t)

abbrev pub edited : Input → List ℕ
edited t = window t.buf t.w (to_edit t)

-- A line without a line feed.
abbrev pub IsOneLine : List ℕ → Type 0
IsOneLine [] = Unit
IsOneLine (c ∷ cs) = ((c == 10) ≡ false) × IsOneLine cs

pub record IsInput (t : Input) : Type 0 where
  pub storage : length t.buf ≡ input_buf
  pub r_in : t.r < uint_mod
  pub w_in : t.w < uint_mod
  pub e_in : t.e < uint_mod
  pub room : to_read t + to_edit t ≤ input_buf
  pub line : IsOneLine (edited t)

pub length-window : (buf : List ℕ) (i n : ℕ) → length (window buf i n) ≡ n
length-window buf i zero = refl
length-window buf i (suc n) = ap suc (length-window buf ((i + 1) % uint_mod) n)

-- A character stored outside a window.
pub window-set_apart :
    (buf : List ℕ) (c n i e : ℕ)
    → i < uint_mod
    → e < uint_mod
    → n ≤ (e + uint_mod - i) % uint_mod
    → (e + uint_mod - i) % uint_mod < input_buf
    → window (set buf (e % input_buf) c) i n ≡ window buf i n
window-set_apart buf c zero i e a b l u = refl
window-set_apart buf c (suc n) i e a b l u =
    ap₂ ◌∷◌ (get_or-set_ne buf (e % input_buf) (i % input_buf) c 0 (omega arith))
      (window-set_apart buf c n ((i + 1) % uint_mod) e (omega arith) b (omega arith) (omega arith))

-- A window in two parts.
pub window_parts :
    (buf : List ℕ) (n k i : ℕ)
    → i < uint_mod
    → window buf i (n + k) ≡ window buf i n ++ window buf ((i + n) % uint_mod) k
window_parts buf zero k i a =
    let z : (i + 0) % uint_mod ≡ i = omega arith in
    let y : 0 + k ≡ k = omega arith in rw (z, y) refl
window_parts buf (suc n) k i a =
    let z : ((i + 1) % uint_mod + n) % uint_mod ≡ (i + suc n) % uint_mod = omega arith in
    let e : suc n + k ≡ suc (n + k) = omega arith in
    rw (e, sym z)
      (ap (λ xs. get_or buf (i % input_buf) 0 ∷ xs)
        (window_parts buf n k ((i + 1) % uint_mod) (omega arith)))
