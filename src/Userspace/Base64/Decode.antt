-- ===== src/Userspace/Base64/Decode.antt =====
-- A decoder for base64 (RFC 4648), against the encoder of userspace/base64.c.
use Prim.Native.Nat.{bit_and, bit_or}
use base_system.Base.{
  ℕ, suc, ◌+◌, ◌*◌, ◌/◌, ◌%◌, ◌<◌, ◌≡◌, refl, Bool, true, false, ◌&&◌, not, List, [], ◌∷◌, ◌++◌,
  arith, ltb, leb, ◌-◌, ◌==◌, ==_iff, if◌then◌else◌, length, passes, passes_below,
}
use base_system.Userspace.Base64.{char_at, encode24, encode}

-- The value of a character in the table of RFC 4648: `A` to `Z` are 0 to 25, `a` to `z` 26 to 51, `0`
-- to `9` 52 to 61, `+` is 62 and `/` is 63.
unfoldable pub value : ℕ → ℕ
value c =
    if leb 65 c && leb c 90
    then c - 65
    else if leb 97 c && leb c 122
    then c - 97 + 26
    else if leb 48 c && leb c 57
    then c - 48 + 52
    else if c == 43
    then 62
    else if c == 47
    then 63
    else 64

-- Four characters give three bytes, or fewer before the padding.
unfoldable pub decode : List ℕ → List ℕ
unfolding value
decode (a ∷ b ∷ c ∷ d ∷ rest) =
    let more = decode rest in
    let b0 = value a * 4 + value b / 16 in
    let b1 = value b % 16 * 16 + value c / 4 in
    let b2 = value c % 4 * 64 + value d in
    if c == b'=' then b0 ∷ more else if d == b'=' then b0 ∷ b1 ∷ more else b0 ∷ b1 ∷ b2 ∷ more
decode _ = []

abbrev pub Bytes : List ℕ → Type 0
Bytes [] = Unit
Bytes (x ∷ xs) = (x < 256) × Bytes xs

abbrev value_inverts : ℕ → Bool
value_inverts i = value (char_at i) == i && not (char_at i == b'=')

value_table : passes value_inverts 0 64 ≡ true
unfolding passes value
value_table = refl

value-char_at : (i : ℕ) → i < 64 → (value (char_at i) ≡ i) × ((char_at i == b'=') ≡ false)
value-char_at i h =
    let e = passes_below value_inverts 64 i value_table h in
    ((==_iff (value (char_at i)) i).0 (ground arith), ground arith)

abbrev masks_agree : ℕ → Bool
masks_agree x =
    bit_and x 0x03 == x % 4
    && bit_and x 0xf0 == x / 16 * 16
    && bit_and x 0x0f == x % 16
    && bit_and x 0xc0 == x / 64 * 64
    && bit_and x 0x3f == x % 64

masks_table : passes masks_agree 0 256 ≡ true
unfolding passes
masks_table = refl

masks :
    (x : ℕ)
    → x < 256
    → (bit_and x 0x03 ≡ x % 4)
      × (bit_and x 0xf0 ≡ x / 16 * 16)
      × (bit_and x 0x0f ≡ x % 16)
      × (bit_and x 0xc0 ≡ x / 64 * 64)
      × (bit_and x 0x3f ≡ x % 64)
masks x h =
    let e = passes_below masks_agree 256 x masks_table h in
    (ground arith, ground arith, ground arith, ground arith, ground arith)

abbrev parts_join : ℕ → Bool
parts_join i = bit_or (i / 16 * 16) (i % 16) == i && bit_or (i / 4 * 4) (i % 4) == i

or_table : passes parts_join 0 64 ≡ true
unfolding passes
or_table = refl

or_parts : (i : ℕ) → i < 64 → (bit_or (i / 16 * 16) (i % 16) ≡ i) × (bit_or (i / 4 * 4) (i % 4) ≡ i)
or_parts i h = let e = passes_below parts_join 64 i or_table h in (ground arith, ground arith)

-- A six-bit value put together from a high and a low part.
join16 : (x y : ℕ) → x < 4 → y < 16 → bit_or (x * 16) y ≡ x * 16 + y
join16 x y hx hy =
    let a : (x * 16 + y) / 16 ≡ x = omega arith in
    let b : (x * 16 + y) % 16 ≡ y = omega arith in
    rw (a, b) at ((or_parts (x * 16 + y) (omega arith)).0)

join4 : (x y : ℕ) → x < 16 → y < 4 → bit_or (x * 4) y ≡ x * 4 + y
join4 x y hx hy =
    let a : (x * 4 + y) / 4 ≡ x = omega arith in
    let b : (x * 4 + y) % 4 ≡ y = omega arith in
    rw (a, b) at ((or_parts (x * 4 + y) (omega arith)).1)

-- The four six-bit values of three bytes, as numbers.
six_bits :
    (x y z : ℕ)
    → x < 256
    → y < 256
    → z < 256
    → (bit_or (bit_and x 0x03 * 16) (bit_and y 0xf0 / 16) ≡ x % 4 * 16 + y / 16)
      × (bit_or (bit_and y 0x0f * 4) (bit_and z 0xc0 / 64) ≡ y % 16 * 4 + z / 64)
      × (bit_and z 0x3f ≡ z % 64)
six_bits x y z hx hy hz =
    let (x3, _, _, _, _) = masks x hx in
    let (_, yf0, yf, _, _) = masks y hy in
    let (_, _, _, zc, z3) = masks z hz in
    let a : y / 16 * 16 / 16 ≡ y / 16 = omega arith in
    let b : z / 64 * 64 / 64 ≡ z / 64 = omega arith in
    (
      rw (x3, yf0, a) (join16 (x % 4) (y / 16) (omega arith) (omega arith)),
      rw (yf, zc, b) (join4 (y % 16) (z / 64) (omega arith) (omega arith)),
      z3,
    )

decode_step :
    (i j k l : ℕ) (rest : List ℕ)
    → i < 64
    → j < 64
    → k < 64
    → l < 64
    → decode (char_at i ∷ char_at j ∷ char_at k ∷ char_at l ∷ rest)
      ≡ (i * 4 + j / 16) ∷ (j % 16 * 16 + k / 4) ∷ (k % 4 * 64 + l) ∷ decode rest
unfolding decode
decode_step i j k l rest hi hj hk hl =
    let (vi, _) = value-char_at i hi in
    let (vj, _) = value-char_at j hj in
    let (vk, ek) = value-char_at k hk in
    let (vl, el) = value-char_at l hl in rw (ek, el, vi, vj, vk, vl) refl

decode_two :
    (i j k : ℕ)
    → i < 64
    → j < 64
    → k < 64
    → decode (char_at i ∷ char_at j ∷ char_at k ∷ b'=' ∷ [])
      ≡ (i * 4 + j / 16) ∷ (j % 16 * 16 + k / 4) ∷ []
unfolding decode
decode_two i j k hi hj hk =
    let (vi, _) = value-char_at i hi in
    let (vj, _) = value-char_at j hj in
    let (vk, ek) = value-char_at k hk in rw (ek, vi, vj, vk) refl

decode_one :
    (i j : ℕ)
    → i < 64
    → j < 64
    → decode (char_at i ∷ char_at j ∷ b'=' ∷ b'=' ∷ []) ≡ (i * 4 + j / 16) ∷ []
unfolding decode
decode_one i j hi hj =
    let (vi, _) = value-char_at i hi in let (vj, _) = value-char_at j hj in rw (vi, vj) refl

-- The bytes of a group from its six-bit values.
join_bytes :
    (x y z : ℕ)
    → x < 256
    → y < 256
    → z < 256
    → (x / 4 * 4 + (x % 4 * 16 + y / 16) / 16 ≡ x)
      × ((x % 4 * 16 + y / 16) % 16 * 16 + (y % 16 * 4 + z / 64) / 4 ≡ y)
      × ((y % 16 * 4 + z / 64) % 4 * 64 + z % 64 ≡ z)
join_bytes x y z hx hy hz = (omega arith, omega arith, omega arith)

-- One group of three bytes.
encode24_three :
    (x y z : ℕ) (rest : List ℕ)
    → x < 256
    → y < 256
    → z < 256
    → encode24 (x ∷ y ∷ z ∷ rest)
      ≡ char_at (x / 4)
        ∷ char_at (x % 4 * 16 + y / 16)
        ∷ char_at (y % 16 * 4 + z / 64)
        ∷ char_at (z % 64)
        ∷ []
unfolding encode24
encode24_three x y z rest hx hy hz =
    let (a, b, c) = six_bits x y z hx hy hz in
    let more : ltb 1 (length (x ∷ y ∷ z ∷ rest)) ≡ true = ground arith in
    let all : ltb 2 (length (x ∷ y ∷ z ∷ rest)) ≡ true = ground arith in
    rw (a, b, c, more, all) refl

encode24_two :
    (x y : ℕ)
    → x < 256
    → y < 256
    → encode24 (x ∷ y ∷ [])
      ≡ char_at (x / 4) ∷ char_at (x % 4 * 16 + y / 16) ∷ char_at (y % 16 * 4 + 0 / 64) ∷ b'=' ∷ []
unfolding encode24
encode24_two x y hx hy = let (a, b, c) = six_bits x y 0 hx hy (omega arith) in rw (a, b) refl

encode24_one :
    (x : ℕ)
    → x < 256
    → encode24 (x ∷ []) ≡ char_at (x / 4) ∷ char_at (x % 4 * 16 + 0 / 16) ∷ b'=' ∷ b'=' ∷ []
unfolding encode24
encode24_one x hx = let (a, b, c) = six_bits x 0 0 hx (omega arith) (omega arith) in rw a refl

encode_three :
    (x y z : ℕ) (xs : List ℕ) → encode (x ∷ y ∷ z ∷ xs) ≡ encode24 (x ∷ y ∷ z ∷ xs) ++ encode xs
unfolding encode
encode_three x y z xs =
    let e : (length (x ∷ y ∷ z ∷ xs) + 2) / 3 ≡ suc ((length xs + 2) / 3) = ground arith in
    rw e refl

encode_one : (x : ℕ) → encode (x ∷ []) ≡ encode24 (x ∷ [])
unfolding encode
encode_one x = refl

encode_two : (x y : ℕ) → encode (x ∷ y ∷ []) ≡ encode24 (x ∷ y ∷ [])
unfolding encode
encode_two x y = refl

-- `encode` of every text of bytes is base64 in the table of RFC 4648: the decoder of that table gives
-- the text back.
pub encode_roundtrip : (xs : List ℕ) → Bytes xs → decode (encode xs) ≡ xs
encode_roundtrip [] h = unfold encode decode in refl
encode_roundtrip (x ∷ []) (hx, _) =
    let (a, _, _) = join_bytes x 0 0 hx (omega arith) (omega arith) in
    rw
      (
        encode_one x,
        encode24_one x hx,
        decode_one (x / 4) (x % 4 * 16 + 0 / 16) (omega arith) (omega arith),
        a,
      )
      refl
encode_roundtrip (x ∷ y ∷ []) (hx, (hy, _)) =
    let (a, b, _) = join_bytes x y 0 hx hy (omega arith) in
    rw
      (
        encode_two x y,
        encode24_two x y hx hy,
        decode_two (x / 4) (x % 4 * 16 + y / 16) (y % 16 * 4 + 0 / 64) (omega arith) (omega arith)
            (omega arith),
        a,
        b,
      )
      refl
encode_roundtrip (x ∷ y ∷ z ∷ xs) (hx, (hy, (hz, h))) =
    let (a, b, c) = join_bytes x y z hx hy hz in
    rw
      (
        encode_three x y z xs,
        encode24_three x y z xs hx hy hz,
        decode_step (x / 4) (x % 4 * 16 + y / 16) (y % 16 * 4 + z / 64) (z % 64) (encode xs)
            (omega arith) (omega arith) (omega arith) (omega arith),
        a,
        b,
        c,
        encode_roundtrip xs h,
      )
      refl
