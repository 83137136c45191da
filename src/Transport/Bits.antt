-- ===== src/Transport/Bits.antt =====
-- Four bytes of a 32-bit word, as FrameCodec.cpp and Protocol.h write and read them. The shift by k
-- bits is a division by 2 ^ k, the mask 0xFF a remainder by 256, and the `|` of disjoint bytes is
-- their sum.
use jitong_app.Base.{ℕ, ◌+◌, ◌*◌, ◌/◌, ◌%◌, ◌<◌, ◌≡◌, ◌++◌, [], ◌∷◌, Bytes, arith}

-- FrameCodec::encodeLength: the most significant byte first.
unfoldable pub encode_length : ℕ → Bytes
encode_length n = (n / 16777216 % 256) ∷ (n / 65536 % 256) ∷ (n / 256 % 256) ∷ (n % 256) ∷ []

-- FrameCodec::decodeLength, of the first four bytes; fewer are never given to it.
unfoldable pub decode_length : Bytes → ℕ
decode_length (a ∷ b ∷ c ∷ d ∷ rest) = a * 16777216 + b * 65536 + c * 256 + d
decode_length _ = 0

-- encodeType32: the least significant byte first.
unfoldable pub encode_type32 : ℕ → Bytes
encode_type32 v = (v % 256) ∷ (v / 256 % 256) ∷ (v / 65536 % 256) ∷ (v / 16777216 % 256) ∷ []

-- decodeType32
unfoldable pub decode_type32 : Bytes → ℕ
decode_type32 (a ∷ b ∷ c ∷ d ∷ rest) = a + b * 256 + c * 65536 + d * 16777216
decode_type32 _ = 0

abbrev pub IsByte : ℕ → Type 0
IsByte b = b < 256

abbrev pub IsWord : ℕ → Type 0
IsWord n = n < 4294967296

pub decode_length-encode_length :
    (n : ℕ) (rest : Bytes) → IsWord n → decode_length (encode_length n ++ rest) ≡ n
unfolding decode_length encode_length
decode_length-encode_length n rest h = omega arith

pub decode_type32-encode_type32 :
    (v : ℕ) (rest : Bytes) → IsWord v → decode_type32 (encode_type32 v ++ rest) ≡ v
unfolding decode_type32 encode_type32
decode_type32-encode_type32 v rest h = omega arith

-- Decoding is injective on bytes: the four bytes come back from the word.
pub encode_length-decode_length :
    (a b c d : ℕ)
    → IsByte a
    → IsByte b
    → IsByte c
    → IsByte d
    → encode_length (decode_length (a ∷ b ∷ c ∷ d ∷ [])) ≡ a ∷ b ∷ c ∷ d ∷ []
unfolding decode_length encode_length
encode_length-decode_length a b c d p q r s = ground arith
