-- ===== src/Kernel/Text/Strings.antt =====
-- The string functions of kernel/string.c, against the text that a pointer stands for.
use native.Mathlib.Decide.{ℕ_discrete}
use base_system.Base.{
  ℕ, zero, suc, ◌+◌, ◌-◌, ◌≤◌, ◌<◌, ◌≡◌, refl, ◌∙◌, ◌↔◌, inl, inr, false, ◌&&◌, List, [], ◌∷◌,
  arith, ◌==◌, ltb, leb, if◌then◌else◌, get_or, length, Bool-cases, pos,
}
use base_system.Kernel.Text.{
  Memory, store, difference, strncmp, fill_zero, strncpy, safestrcpy_from, safestrcpy,
}

-- The characters from `s` on, before the first zero and at most `n`.
unfoldable pub c_text : ℕ → Memory → ℕ → List ℕ
c_text zero m s = []
c_text (suc n) m s = let rest = c_text n m (s + 1) in if m s == 0 then [] else m s ∷ rest

difference_iff : (a b : ℕ) → (difference a b ≡ pos 0) ↔ (a ≡ b)
difference_iff a b = (λ h. ground arith, λ h. ground arith)

-- `strncmp` answers 0 exactly if the two texts agree, up to their zeros or to `n` characters.
pub strncmp_iff :
    (m : Memory) (p q n : ℕ) → (strncmp m p q n ≡ pos 0) ↔ (c_text n m p ≡ c_text n m q)
unfolding strncmp c_text
strncmp_iff m p q zero = (λ h. refl, λ h. refl)
strncmp_iff m p q (suc n) =
    let ih = strncmp_iff m (p + 1) (q + 1) n in
    let d = difference_iff (m p) (m q) in
    (λ h. ground (arith, ih.0, d.0), λ h. ground (arith, ih.1, d.1))

-- A write that is not behind the beginning of a text leaves it.
c_text-store :
    (n s p v : ℕ) (m : Memory)
    → (leb s p && ltb p (s + n)) ≡ false
    → c_text n (store p v m) s ≡ c_text n m s
unfolding c_text
c_text-store zero s p v m h = refl
c_text-store (suc n) s p v m h =
    let ih = c_text-store n (s + 1) p v m (ground arith) in ground arith

-- The `n` bytes at `s` are a text and zeros behind it.
abbrev pub padded : ℕ → ℕ → List ℕ → Memory → Memory
padded s n text m i = if leb s i && ltb i (s + n) then get_or text (i - s) 0 else m i

fill_zero_lem : (s n : ℕ) (m : Memory) (i : ℕ) → fill_zero s n m i ≡ padded s n [] m i
unfolding fill_zero
fill_zero_lem s zero m i = ground arith
fill_zero_lem s (suc n) m i = ground (arith, fill_zero_lem (s + 1) n (store s 0 m) i)

get_or-later :
    (c : ℕ) (text : List ℕ) (i s : ℕ)
    → s < i
    → get_or (c ∷ text) (i - s) 0 ≡ get_or text (i - (s + 1)) 0
get_or-later c text i s h = let e : i - s ≡ suc (i - (s + 1)) = omega arith in rw e refl

-- `strncpy` of a text that does not overlap the bytes behind `s` puts at most `n` characters of it
-- there, and zeros up to the `n`th byte; all other bytes are unchanged.
pub strncpy_lem :
    (s t n : ℕ) (m : Memory) (i : ℕ)
    → (ltb t s && ltb s (t + n)) ≡ false
    → strncpy s t n m i ≡ padded s n (c_text n m t) m i
unfolding strncpy c_text
strncpy_lem s t zero m i h = ground arith
strncpy_lem s t (suc n) m i h =
    let m1 = store s (m t) m in
    let ih = strncpy_lem (s + 1) (t + 1) n m1 i (ground arith) in
    let same = c_text-store n (t + 1) s (m t) m (ground arith) in
    let zeros = fill_zero_lem (s + 1) n m1 i in
    elim (Bool-cases (m t == 0)) [
      | inl e ↦ rw e (ground (arith, zeros, e))
      | inr e ↦
          rw (e, ih, same)
            (elim (ℕ_discrete i s) [
              | yes eq ↦ rw eq (let z : s - s ≡ 0 = omega arith in ground (arith, z))
              | no ne ↦ elim (Bool-cases (leb s i)) [
                | inl l ↦ ground (arith, get_or-later (m t) (c_text n m (t + 1)) i s (ground arith))
                | inr g ↦ ground arith
              ]
            ])
    ]

-- `safestrcpy` changes nothing but the bytes of its buffer.
safestrcpy_from-frame :
    (s t n : ℕ) (m : Memory) (i : ℕ)
    → (leb s i && leb i (s + n)) ≡ false
    → safestrcpy_from s t n m i ≡ m i
unfolding safestrcpy_from
safestrcpy_from-frame s t zero m i h = ground arith
safestrcpy_from-frame s t (suc n) m i h =
    let ih = safestrcpy_from-frame (s + 1) (t + 1) n (store s (m t) m) i (ground arith) in
    ground arith

safestrcpy_from_lem :
    (s t n : ℕ) (m : Memory)
    → (ltb t s && ltb s (t + n)) ≡ false
    → let text = c_text n m t in
      let m' = safestrcpy_from s t n m in
      (c_text (suc n) m' s ≡ text) × (m' (s + length text) ≡ 0) × (length text ≤ n)
unfolding safestrcpy_from c_text
safestrcpy_from_lem s t zero m h = (ground arith, ground arith, omega arith)
safestrcpy_from_lem s t (suc n) m h =
    let m1 = store s (m t) m in
    let (a, b, c) = safestrcpy_from_lem (s + 1) (t + 1) n m1 (ground arith) in
    let same = c_text-store n (t + 1) s (m t) m (ground arith) in
    let first = safestrcpy_from-frame (s + 1) (t + 1) n m1 s (ground arith) in
    let byte : m1 s ≡ m t = ground arith in
    let len = length (c_text n m (t + 1)) in
    let shift : s + suc len ≡ s + 1 + len = omega arith in
    elim (Bool-cases (m t == 0)) [
      | inl e ↦ rw e (ground (arith, e), ground (arith, e), omega arith)
      | inr e ↦ rw e (
        ground (arith, a, same, first ∙ byte, e),
        rw shift (rw same at b),
        omega (arith, rw same at c),
      )
    ]

-- `safestrcpy` into a buffer of `n` bytes that the text does not overlap: the buffer then holds the
-- text's first `n - 1` characters, with a zero behind them that is in the buffer, and no byte outside
-- the buffer is changed.
pub safestrcpy_lem :
    (s t n : ℕ) (m : Memory) (i : ℕ)
    → 1 ≤ n
    → (ltb t s && ltb s (t + n)) ≡ false
    → let text = c_text (n - 1) m t in
      let m' = safestrcpy s t n m in
      (c_text n m' s ≡ text)
      × (m' (s + length text) ≡ 0)
      × (length text < n)
      × (m' i ≡ (if leb s i && ltb i (s + n) then m' i else m i))
unfolding safestrcpy
safestrcpy_lem s t zero m i h d = absurd (omega arith)
safestrcpy_lem s t (suc n) m i h d =
    let e : suc n - 1 ≡ n = omega arith in
    let (a, b, c) = safestrcpy_from_lem s t n m (ground arith) in
    rw e (a, b, omega arith, ground (arith, safestrcpy_from-frame s t n m i))
