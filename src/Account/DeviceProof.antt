-- ===== src/Account/DeviceProof.antt =====
-- client_core/src/account/DeviceProofService.cpp with its header, and AuthRequestBuilder.cpp. The
-- signer is a pair of its public key, empty where there is none, and its signing function, which
-- gives the empty signature where it fails. A built request is the message that is serialized.
use jitong_app.Base.{
  ℕ, ◌/◌, ◌%◌, Bool, true, false, Option, none, some, [], ◌∷◌, ◌++◌, Bytes, codes, is_empty, length,
  if◌then◌else◌,
}
use jitong_app.Transport.Messages.{TokenLoginRq, RefreshTokenRq, LogoutRq}

-- IP256Signer
pub record Signer : Type 0 where
  pub public_key_der : Bytes
  pub sign : Bytes → Bytes

pub record DeviceProof : Type 0 where
  pub public_key_der : Bytes
  pub signature : Bytes

abbrev pub no_proof : DeviceProof
no_proof = record { public_key_der = []; signature = [] }

pub record DeviceProofService : Type 0 where
  pub signer : Signer
  pub device_id : Bytes

abbrev pub append_u32_be : Bytes → ℕ → Bytes
append_u32_be out v =
    out ++ (v / 16777216 % 256) ∷ (v / 65536 % 256) ∷ (v / 256 % 256) ∷ (v % 256) ∷ []

unfoldable pub field : Bytes → Bytes → Bytes
field out x = append_u32_be out (length x % 4294967296) ++ x

unfoldable pub build_message : Bytes → Bytes → Bytes → Bytes → Bytes → Bytes
build_message operation app_session_id device_id credential public_key =
    field
      (field
        (field (field (field (codes "jitong-device-proof-v1") operation) app_session_id) device_id)
        credential)
      public_key

unfoldable pub make : DeviceProofService → Bytes → Bytes → Bytes → Bool → DeviceProof
unfolding build_message
make d operation app_session_id credential bind =
    let key = d.signer.public_key_der in
    let signature =
      d.signer.sign (
        build_message operation app_session_id d.device_id credential (if bind then key else [])) in
    if is_empty key
    then no_proof
    else if is_empty signature
    then no_proof
    else record { public_key_der = if bind then key else []; signature = signature }

abbrev pub for_password_login : DeviceProofService → Bytes → Bytes → Bytes → DeviceProof
for_password_login d app tel pass_sha256_hex =
    make d (codes "password-login") app (tel ++ 0 ∷ pass_sha256_hex) true

abbrev pub for_token_login : DeviceProofService → Bytes → Bytes → DeviceProof
for_token_login d app access_token = make d (codes "token-login") app access_token false

abbrev pub for_token_refresh : DeviceProofService → Bytes → Bytes → Bytes → DeviceProof
for_token_refresh d app refresh_token request_id =
    make d (codes "token-refresh") app (refresh_token ++ 0 ∷ request_id) false

abbrev pub for_logout : DeviceProofService → Bytes → Bytes → Bool → DeviceProof
for_logout d app refresh_token all_devices =
    make d (codes "logout") app (refresh_token ++ 0 ∷ (if all_devices then 49 else 48) ∷ []) false

-- AuthRequestBuilder: none where there is no proof.
unfoldable pub build_token_login : DeviceProofService → Bytes → Bytes → Bytes → Option TokenLoginRq
build_token_login d app access_token request_id =
    let proof = for_token_login d app access_token in
    if is_empty proof.signature
    then none
    else some (record {
      access_token = access_token;
      device_id = d.device_id;
      request_id = request_id;
      device_signature = proof.signature;
    })

unfoldable pub build_refresh : DeviceProofService → Bytes → Bytes → Bytes → Option RefreshTokenRq
build_refresh d app refresh_token request_id =
    let proof = for_token_refresh d app refresh_token request_id in
    if is_empty proof.signature
    then none
    else some (record {
      refresh_token = refresh_token;
      device_id = d.device_id;
      request_id = request_id;
      device_signature = proof.signature;
    })

unfoldable pub build_logout : DeviceProofService → Bytes → Bytes → Bool → Option LogoutRq
build_logout d app refresh_token all_devices =
    let proof = for_logout d app refresh_token all_devices in
    if is_empty proof.signature
    then none
    else some (record {
      refresh_token = refresh_token;
      device_id = d.device_id;
      logout_all_devices = all_devices;
      device_signature = proof.signature;
    })
