-- ===== src/Kernel/Tty/Numbers.antt =====
-- The numbers that `printint` of kernel/tty.c puts out, read back.
use native.Mathlib.Nat.{div-add-mod', mod-lt, div-mul-le_self, mul-le-mul_left}
use base_system.Base.{
  ℕ, zero, suc, ◌+◌, ◌-◌, ◌*◌, ◌/◌, ◌%◌, ◌^◌, ◌≤◌, ◌<◌, ◌≡◌, refl, sym, ap, ◌∙◌, inl, inr, ℤ, pos,
  negsuc, true, false, List, [], ◌∷◌, ◌++◌, arith, ◌==◌, ltb, if◌then◌else◌, Bool-cases, length,
}
use base_system.Kernel.Tty.Printf.{digit, digits_from, put_back, is_negative, printint}

-- Reading a number: the value of a character, and of the characters of a number, the first one first.
abbrev pub digit_value : ℕ → ℕ
digit_value c = if ltb c 58 then c - 48 else c - 87

abbrev pub value_from : ℕ → ℕ → List ℕ → ℕ
value_from base v [] = v
value_from base v (c ∷ cs) = value_from base (v * base + digit_value c) cs

abbrev pub value_back : ℕ → List ℕ → ℕ
value_back base [] = 0
value_back base (c ∷ cs) = value_back base cs * base + digit_value c

-- The characters of a number in base ten or sixteen, with a minus sign in front of a negative one.
abbrev pub read_int : ℕ → List ℕ → ℤ
read_int base [] = pos 0
read_int base (c ∷ cs) =
    if c == 45 then negsuc (value_from base 0 cs - 1) else pos (value_from base 0 (c ∷ cs))

-- The `int` of 32 bits.
abbrev pub int_of : ℕ → ℤ
int_of xx = if is_negative xx then negsuc (2 ^ 32 - xx - 1) else pos xx

AreDigits : List ℕ → Type 0
AreDigits [] = Unit
AreDigits (c ∷ cs) = ((c == 45) ≡ false) × AreDigits cs

digit_value-digit : (d : ℕ) → d < 16 → digit_value (digit d) ≡ d
digit_value-digit d l = ground arith

twos : ℕ → ℕ
twos zero = 1
twos (suc k) = twos k * 2

tens : ℕ → ℕ
tens zero = 1
tens (suc k) = tens k * 10

module _ (base : ℕ) (low : 10 ≤ base) (high : base ≤ 16) where
  quotient_tenth : (x : ℕ) → x / base * 10 ≤ x
  quotient_tenth x = omega (arith, mul-le-mul_left (x / base) low, div-mul-le_self x base)

  value-digits : (k x : ℕ) → x < twos k → value_back base (digits_from k base x) ≡ x
  unfolding digits_from twos
  value-digits zero x l = omega arith
  value-digits (suc k) x l =
      let small : x % base < base = mod-lt x (omega arith) in
      let d = digit_value-digit (x % base) (omega (arith, small)) in
      let h = value-digits k (x / base) (omega (arith, quotient_tenth x)) in
      elim (Bool-cases (x / base == 0)) [
        | inl z ↦
            let q : x / base ≡ 0 = ground arith in
            rw (z, d) (ap (λ y. y * base + x % base) (sym q) ∙ div-add-mod' x base)
        | inr n ↦ rw (n, d, h) (div-add-mod' x base)
      ]

  length-digits : (n k x : ℕ) → x < tens (suc n) → length (digits_from k base x) ≤ suc n
  unfolding digits_from tens
  length-digits n zero x l = omega arith
  length-digits zero (suc k) x l =
      let z : (x / base == 0) ≡ true = ground (arith, quotient_tenth x) in rw z (omega arith)
  length-digits (suc n) (suc k) x l = elim (Bool-cases (x / base == 0)) [
    | inl z ↦ rw z (omega arith)
    | inr h ↦ rw h (omega (arith, length-digits n k (x / base) (omega (arith, quotient_tenth x))))
  ]

digits-AreDigits : (base k x : ℕ) → 1 ≤ base → base ≤ 16 → AreDigits (digits_from k base x)
unfolding digits_from AreDigits
digits-AreDigits base zero x a b = tt
digits-AreDigits base (suc k) x a b =
    let small : x % base < base = mod-lt x (omega arith) in
    (
      ground (arith, small),
      elim (Bool-cases (x / base == 0)) [
        | inl z ↦ rw z tt
        | inr n ↦ rw n (digits-AreDigits base k (x / base) a b)
      ],
    )

value-put_back :
    (base : ℕ) (cs out : List ℕ)
    → value_from base 0 (put_back cs out) ≡ value_from base (value_back base cs) out
unfolding put_back
value-put_back base [] out = refl
value-put_back base (c ∷ cs) out = value-put_back base cs (c ∷ out)

put_back-minus : (cs out : List ℕ) → put_back (cs ++ 45 ∷ []) out ≡ 45 ∷ put_back cs out
unfolding put_back
put_back-minus [] out = refl
put_back-minus (c ∷ cs) out = put_back-minus cs (c ∷ out)

put_back-AreDigits : (cs out : List ℕ) → AreDigits cs → AreDigits out → AreDigits (put_back cs out)
unfolding put_back AreDigits
put_back-AreDigits [] out h k = k
put_back-AreDigits (c ∷ cs) out (p, h) k = put_back-AreDigits cs (c ∷ out) h (p, k)

read_int-digits :
    (base : ℕ) (cs : List ℕ) → AreDigits cs → read_int base cs ≡ pos (value_from base 0 cs)
unfolding AreDigits
read_int-digits base [] h = refl
read_int-digits base (c ∷ cs) (p, h) = rw p refl

length-put_back : (cs out : List ℕ) → length (put_back cs out) ≡ length cs + length out
unfolding put_back
length-put_back [] out = omega arith
length-put_back (c ∷ cs) out = omega (arith, length-put_back cs (c ∷ out))

module _ (base : ℕ) (low : 10 ≤ base) (high : base ≤ 16) (x : ℕ) (l : x < 2 ^ 32) where
  abbrev shown : List ℕ
  shown = put_back (digits_from 32 base x) []

  value-shown : value_from base 0 shown ≡ x
  unfolding twos
  value-shown = value-put_back base (digits_from 32 base x) [] ∙ value-digits base low high 32 x l

  read_int-shown : read_int base shown ≡ pos x
  unfolding AreDigits
  read_int-shown =
      read_int-digits base shown (
        put_back-AreDigits (digits_from 32 base x) []
          (digits-AreDigits base 32 x (omega arith) high) tt)
      ∙ ap pos value-shown

  length-shown : length shown ≤ 10
  unfolding tens
  length-shown = omega (
    arith,
    length-put_back (digits_from 32 base x) [],
    length-digits base low high 9 32 x (omega arith),
  )

printint_positive :
    (xx base : ℕ)
    → is_negative xx ≡ false
    → printint xx base true ≡ put_back (digits_from 32 base xx) []
unfolding printint
printint_positive xx base h = rw h refl

printint_negative :
    (xx base : ℕ)
    → is_negative xx ≡ true
    → xx < 2 ^ 32
    → printint xx base true ≡ 45 ∷ put_back (digits_from 32 base (2 ^ 32 - xx)) []
unfolding printint
printint_negative xx base h l =
    let m : (2 ^ 32 - xx) % 2 ^ 32 ≡ 2 ^ 32 - xx = ground arith in
    rw (h, m) (put_back-minus (digits_from 32 base (2 ^ 32 - xx)) [])

-- What `printint` puts out in base ten to sixteen for an `int` is read back as that `int`, also for
-- the lowest one, with a minus sign in front of a negative one; for an unsigned number it is read back
-- as that number. It never has more than eleven characters, so that the sixteen of its buffer are
-- enough.
pub printint_roundtrip :
    (xx base : ℕ)
    → 10 ≤ base
    → base ≤ 16
    → xx < 2 ^ 32
    → (read_int base (printint xx base true) ≡ int_of xx)
      × (read_int base (printint xx base false) ≡ pos xx)
      × (length (printint xx base true) ≤ 11)
      × (length (printint xx base false) ≤ 11)
unfolding printint
printint_roundtrip xx base low high l =
    let plain = read_int-shown base low high xx l in
    let short = length-shown base low high xx l in
    elim (Bool-cases (is_negative xx)) [
      | inl h ↦
          let e = printint_negative xx base h l in
          let m : 2 ^ 32 - xx < 2 ^ 32 = ground arith in
          let v = value-shown base low high (2 ^ 32 - xx) m in
          (
            ap (read_int base) e ∙ rw (v, h) refl,
            plain,
            omega (arith, ap length e, length-shown base low high (2 ^ 32 - xx) m),
            omega (arith, short),
          )
      | inr h ↦
          let e = printint_positive xx base h in
          (
            ap (read_int base) e ∙ plain ∙ rw h refl,
            plain,
            omega (arith, ap length e, short),
            omega (arith, short),
          )
    ]
