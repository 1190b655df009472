-- ===== src/Userspace/Base64/Tests.antt =====
-- The padding of the last group.
use base_system.Base.{ℕ, ◌≡◌, refl, List, codes, arith}
use base_system.Userspace.Base64.{encode, encode24}
use base_system.Userspace.Base64.Decode.{decode, Bytes, encode_roundtrip}

abbrev text : List ℕ
text = codes "base"

encoded : encode text ≡ codes "YmFzZQ=="
unfolding encode encode24
encoded = refl

text-Bytes : Bytes text
text-Bytes = (omega arith, (omega arith, (omega arith, (omega arith, tt))))

encode_roundtrip_example : decode (encode text) ≡ text
encode_roundtrip_example = encode_roundtrip text text-Bytes
