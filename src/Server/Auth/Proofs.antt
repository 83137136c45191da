-- ===== src/Server/Auth/Proofs.antt =====
-- The device proofs that client_core makes are those that the server verifies.
use mathlib.Core.List.{append_assoc}
use jitong_app.Base.{
  ℕ, ◌≤◌, ◌≡◌, Bool, true, false, not, ◌&&◌, ◌==◌, bytes_eq, some, [], ◌∷◌, ◌++◌, Bytes, codes,
  is_empty, length, take, arith, if◌then◌else◌,
}
use jitong_app.Transport.Messages.{TokenLoginRq, RefreshTokenRq, LogoutRq}
use jitong_app.Account.DeviceProof as ClientProof
use jitong_app.Account.DeviceProof.{
  Signer, DeviceProofService, build_message, make, build_token_login, build_refresh, build_logout,
  for_password_login,
}
use jitong_app.Server.DeviceProof as ServerProof
use jitong_app.Server.DeviceProof.{message, verify_p256}
use jitong_app.Server.DeviceKeys.{get_device_public_key}
use jitong_app.Server.AuthTable.{AuthSession}
use jitong_app.Server.Tokens.{Access}
use jitong_app.Server.Auth.{
  Connection, Server, Outside, token_login_rs, authenticated, bind_auth, deliver, verify_device,
  activate_session,
}
use jitong_app.Server.Auth.Sessions.{proven, let_in, device_proof_ok, owns_session}

field-append : (out x : Bytes) → ClientProof.field out x ≡ out ++ ServerProof.field x
unfolding ClientProof.field ServerProof.field
field-append out x = append_assoc out (take 4 (ServerProof.field x)) x

-- The two programs sign and verify the same bytes.
pub build_message_lem :
    (operation app device credential key : Bytes)
    → build_message operation app device credential key
      ≡ message operation app device credential key
unfolding build_message message
build_message_lem operation app device credential key = simp (field-append, append_assoc)

-- The server's OpenSSL accepts what the signer signs, with keys and signatures of usual sizes.
pub record IsSigner (verify : Bytes → Bytes → Bytes → Bool) (k : Signer) : Type 0 where
  pub has_key : is_empty k.public_key_der ≡ false
  pub key_fits : length k.public_key_der ≤ 512
  pub signature_fits : (m : Bytes) → length (k.sign m) ≤ 144
  pub verifies : (m : Bytes) → verify k.public_key_der m (k.sign m) ≡ true

module _ {Chat : Type 0} (o : Outside Chat) (d : DeviceProofService) (c : Connection)
    (signer : IsSigner o.verify d.signer) where
  -- A proof that could be made is accepted on the same secure channel.
  make-accepted :
      (operation credential : Bytes) (bind : Bool)
      → is_empty (make d operation c.app_session_id credential bind).signature ≡ false
      → verify_device o c operation d.device_id credential d.signer.public_key_der
          (make d operation c.app_session_id credential bind).signature
          bind
        ≡ true
  unfolding verify_device make verify_p256
  make-accepted operation credential bind h =
      let m =
        message operation c.app_session_id d.device_id credential
          (if bind then d.signer.public_key_der else []) in
      ground (
        arith,
        build_message_lem operation c.app_session_id d.device_id credential
            (if bind then d.signer.public_key_der else []),
        signer.has_key,
        signer.key_fits,
        signer.signature_fits m,
        signer.verifies m,
      )

  proven-make :
      (s : Server Chat) (operation credential : Bytes) (user : ℕ)
      → get_device_public_key o.finds_key user d.device_id s.keys ≡ some d.signer.public_key_der
      → is_empty (make d operation c.app_session_id credential false).signature ≡ false
      → proven o c operation user d.device_id credential
          (make d operation c.app_session_id credential false).signature
          s
        ≡ true
  unfolding proven
  proven-make s operation credential user k h =
      ground (arith, k, make-accepted operation credential false h)

  proven-built :
      (s : Server Chat) (user : ℕ) (access refresh request : Bytes) (all : Bool)
      (login : TokenLoginRq) (rotation : RefreshTokenRq) (logout : LogoutRq)
      → get_device_public_key o.finds_key user d.device_id s.keys ≡ some d.signer.public_key_der
      → build_token_login d c.app_session_id access request ≡ some login
      → build_refresh d c.app_session_id refresh request ≡ some rotation
      → build_logout d c.app_session_id refresh all ≡ some logout
      → (proven o c
            (codes "token-login")
            user
            login.device_id
            login.access_token
            login.device_signature
            s
          ≡ true)
        × (proven o c
              (codes "token-refresh")
              user
              rotation.device_id
              (rotation.refresh_token ++ 0 ∷ rotation.request_id)
              rotation.device_signature
              s
            ≡ true)
        × (proven o c
              (codes "logout")
              user
              logout.device_id
              (logout.refresh_token ++ 0 ∷ (if logout.logout_all_devices then 49 else 48) ∷ [])
              logout.device_signature
              s
            ≡ true)
  unfolding build_token_login build_refresh build_logout
  proven-built s user access refresh request all login rotation logout k a b e = (
    ground (arith, proven-make s (codes "token-login") access user k),
    ground (arith, proven-make s (codes "token-refresh") (refresh ++ 0 ∷ request) user k),
    ground (
      arith,
      proven-make s (codes "logout") (refresh ++ 0 ∷ (if all then 49 else 48) ∷ []) user k,
    ),
  )

  -- The requests that the client builds for a login by token, a refresh and a logout pass the proofs
  -- that the handlers ask for, on the same secure channel, of a user whose device has the signer's
  -- key in the server's table: a login whose access token is the user's is let in; of a refresh and
  -- a logout whose token finds a session of the user, the handlers' checks come down to those on the
  -- session and the connection. OpenSSL verifies what the signer signs, with a key of at most 512
  -- bytes and signatures of at most 144.
  pub built-proven :
      (s : Server Chat) (a : Access) (r : AuthSession) (access refresh request : Bytes) (all : Bool)
      (login : TokenLoginRq) (rotation : RefreshTokenRq) (logout : LogoutRq)
      → a.user_id ≡ r.user_id
      → get_device_public_key o.finds_key r.user_id d.device_id s.keys
        ≡ some d.signer.public_key_der
      → build_token_login d c.app_session_id access request ≡ some login
      → build_refresh d c.app_session_id refresh request ≡ some rotation
      → build_logout d c.app_session_id refresh all ≡ some logout
      → (let_in o login c s (some a) ≡ (
        activate_session o c.id a.user_id (
            deliver c.id
              (token_login_rs
                (record { result = 0; userid = a.user_id; access_token_expire_at = a.expires_at }))
              s),
        bind_auth a.user_id a.session_id login.device_id a.expires_at c,
      ))
        × (device_proof_ok o rotation c s (some r)
            ≡ (not r.revoked && bytes_eq r.device_id rotation.device_id))
        × (owns_session o logout c s r ≡ (
            not r.revoked
            && (bytes_eq r.device_id logout.device_id
                && (authenticated c
                    && (c.user_id == r.user_id
                        && (bytes_eq c.device_id r.device_id
                            && bytes_eq c.auth_session_id r.session_id))))))
  built-proven s a r access refresh request all login rotation logout u k b1 b2 b3 =
      let p =
        proven-built s r.user_id access refresh request all login rotation logout k b1 b2 b3 in
      (ground (arith, p.0, u), ground (arith, p.1), ground (arith, p.2))
