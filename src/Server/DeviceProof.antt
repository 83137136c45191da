-- ===== src/Server/DeviceProof.antt =====
-- im_server/src/auth/DeviceProof.cpp. `verify` stands for what OpenSSL does with a public key, a
-- message and a signature: the key is read to its end as one on P-256, and the signature is checked.
pub mod Injective
use jitong_app.Base.{
  ℕ, ◌+◌, ◌/◌, ◌%◌, Bool, true, false, not, ◌||◌, List, [], ◌∷◌, ◌++◌, Bytes, codes, is_empty, ltb,
  length, if◌then◌else◌,
}

-- The length as four bytes, the most significant first, and the bytes.
unfoldable pub field : Bytes → Bytes
field value =
    let n = length value % 4294967296 in
    (n / 16777216 % 256) ∷ (n / 65536 % 256) ∷ (n / 256 % 256) ∷ (n % 256) ∷ value

abbrev pub label : Bytes
label = codes "jitong-device-proof-v1"

unfoldable pub message : Bytes → Bytes → Bytes → Bytes → Bytes → Bytes
message operation app_session_id device_id credential public_key =
    label
    ++ (field operation
        ++ (field app_session_id ++ (field device_id ++ (field credential ++ field public_key))))

unfoldable pub verify_p256 : (Bytes → Bytes → Bytes → Bool) → Bytes → Bytes → Bytes → Bool
verify_p256 verify public_key signed signature =
    if is_empty public_key
      || (ltb 512 (length public_key) || (is_empty signature || ltb 144 (length signature)))
    then false
    else verify public_key signed signature
