-- ===== src/Kernel/Fs/Blocks/Bits.antt =====
-- Single bits of a byte, as kernel/fs.c sets, clears and tests them.
use Prim.Native.Nat.{bit_and, bit_or}
use base_system.Base.{
  ℕ, ◌+◌, ◌-◌, ◌*◌, ◌/◌, ◌%◌, ◌^◌, ◌<◌, ◌≡◌, refl, Bool, true, false, ◌&&◌, not, ◌||◌, arith, ◌==◌,
  ltb,
}
use base_system.Base.{passes, passes_below}

-- Two Boolean values agree.
abbrev same : Bool → Bool → Bool
same true b = b
same false b = not b

-- Setting and clearing bit `i` of the byte `d`, seen at bit `j`, for `x = 8 * i + j`.
abbrev bits_right : ℕ → ℕ → Bool
bits_right d x =
    same (bit_and (bit_or d (2 ^ (x / 8))) (2 ^ (x % 8)) == 0)
      (not (x / 8 == x % 8) && bit_and d (2 ^ (x % 8)) == 0)
    && same (bit_and (bit_and d (255 - 2 ^ (x / 8))) (2 ^ (x % 8)) == 0)
        (x / 8 == x % 8 || bit_and d (2 ^ (x % 8)) == 0)
    && ltb (bit_or d (2 ^ (x / 8))) 256
    && ltb (bit_and d (255 - 2 ^ (x / 8))) 256

bits_table : passes (λ d. passes (bits_right d) 0 64) 0 256 ≡ true
unfolding passes
bits_table = refl

-- A byte after bit `i` was set or cleared, at bit `j`.
pub bits_lem :
    (d i j : ℕ)
    → d < 256
    → i < 8
    → j < 8
    → ((bit_and (bit_or d (2 ^ i)) (2 ^ j) == 0) ≡ (not (i == j) && bit_and d (2 ^ j) == 0))
      × ((bit_and (bit_and d (255 - 2 ^ i)) (2 ^ j) == 0) ≡ (i == j || bit_and d (2 ^ j) == 0))
      × (bit_or d (2 ^ i) < 256)
      × (bit_and d (255 - 2 ^ i) < 256)
bits_lem d i j hd hi hj =
    let x = i * 8 + j in
    let q : x / 8 ≡ i = omega arith in
    let r : x % 8 ≡ j = omega arith in
    let row = passes_below (λ d. passes (bits_right d) 0 64) 256 d bits_table hd in
    let here = rw (q, r) at (passes_below (bits_right d) 64 x row (omega arith)) in
    (ground arith, ground arith, ground arith, ground arith)
