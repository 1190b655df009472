-- ===== src/Userspace/Base64.antt =====
-- userspace/base64.c: the encoder. Bytes and characters are numbers below 256.
pub mod Decode
mod Tests
use Prim.Native.Nat.{bit_and, bit_or}
use base_system.Base.{
  ℕ, zero, suc, ◌+◌, ◌-◌, ◌*◌, ◌/◌, ◌%◌, ◌≤◌, Bool, true, false, List, [], ◌∷◌, ◌++◌, ltb, leb,
  if◌then◌else◌, length, get_or, drop,
}
use base_system.Base.{codes}

abbrev pub charset : List ℕ
charset = codes "ABCDEFGHIJKLMNOPQRSTUVWXYZabcdefghijklmnopqrstuvwxyz0123456789+/"

abbrev pub char_at : ℕ → ℕ
char_at i = get_or charset i 0

-- `encode24` of the bytes `input`, of which there are `len` left: the four characters. A byte that is
-- missing is the zero of the initialised array `udata`.
unfoldable pub encode24 : List ℕ → List ℕ
encode24 input =
    let b0 = get_or input 0 0 in
    let b1 = get_or input 1 0 in
    let b2 = get_or input 2 0 in
    let len = length input in
    char_at (b0 / 4)
    ∷ char_at (bit_or (bit_and b0 0x03 * 16) (bit_and b1 0xf0 / 16))
    ∷ (if ltb 1 len then char_at (bit_or (bit_and b1 0x0f * 4) (bit_and b2 0xc0 / 64)) else b'=')
    ∷ (if ltb 2 len then char_at (bit_and b2 0x3f) else b'=')
    ∷ []

-- The loop of `encode` with `k` rounds left.
unfoldable pub encode_from : ℕ → List ℕ → List ℕ
unfolding encode24
encode_from zero input = []
encode_from (suc k) input = encode24 input ++ encode_from k (drop 3 input)

unfoldable pub encode : List ℕ → List ℕ
unfolding encode_from
encode input = encode_from ((length input + 2) / 3) input
