-- ===== src/Kernel/Tty/Printf.antt =====
-- The numbers and formats of `cprintf` of kernel/tty.c: the characters that it passes to `consputc`,
-- in order.
use base_system.Base.{
  ℕ, zero, suc, ◌+◌, ◌-◌, ◌/◌, ◌%◌, ◌^◌, Bool, true, false, not, ◌&&◌, List, [], ◌∷◌, ◌++◌, ◌==◌,
  ◌||◌, ltb, leb, if◌then◌else◌, codes,
}

-- `digits[d]`
abbrev pub digit : ℕ → ℕ
digit d = if ltb d 10 then 48 + d else 87 + d

-- `buf` after the loop of divisions, its first character first; a round divides by two at least.
unfoldable pub digits_from : ℕ → ℕ → ℕ → List ℕ
digits_from zero base x = []
digits_from (suc k) base x =
    let rest = digits_from k base (x / base) in
    digit (x % base) ∷ (if x / base == 0 then [] else rest)

-- The loop that puts `buf` out from its end.
unfoldable pub put_back : List ℕ → List ℕ → List ℕ
put_back [] out = out
put_back (c ∷ cs) out = put_back cs (c ∷ out)

-- Whether an `int` of these 32 bits is below zero.
abbrev pub is_negative : ℕ → Bool
is_negative xx = leb (2 ^ 31) xx

-- `x`, the absolute value as an unsigned number.
abbrev pub magnitude : ℕ → Bool → ℕ
magnitude xx sign = if sign && is_negative xx then (2 ^ 32 - xx) % 2 ^ 32 else xx

-- `printint` of the 32 bits `xx`. Thirty-two rounds are enough for a base from two on.
unfoldable pub printint : ℕ → ℕ → Bool → List ℕ
printint xx base sign =
    let buf = digits_from 32 base (magnitude xx sign) in
    put_back (if sign && is_negative xx then buf ++ 45 ∷ [] else buf) []

-- `cprintf` at `fmt[i]`, whose bytes end at the list's end, with `argp` at the word `a` of the stack.
-- `text` gives the bytes of the string at an address.
unfoldable pub cprintf_from : (ℕ → ℕ) → (ℕ → List ℕ) → List ℕ → ℕ → List ℕ
cprintf_from args text [] a = []
cprintf_from args text (c ∷ []) a = if c == 37 then [] else c ∷ []
cprintf_from args text (c ∷ d ∷ fmt) a =
    let plain = cprintf_from args text (d ∷ fmt) a in
    let same = cprintf_from args text fmt a in
    let next = cprintf_from args text fmt (suc a) in
    if not (c == 37)
    then c ∷ plain
    else if d == 100
    then printint (args a) 10 true ++ next
    else if d == 120 || d == 112
    then printint (args a) 16 false ++ next
    else if d == 115
    then (if args a == 0 then codes "(null)" else text (args a)) ++ next
    else if d == 37
    then 37 ∷ same
    else 37 ∷ d ∷ same

-- `cprintf`; the format is not null, and the lock is left out.
abbrev pub cprintf : (ℕ → ℕ) → (ℕ → List ℕ) → List ℕ → List ℕ
cprintf args text fmt = cprintf_from args text fmt 0
