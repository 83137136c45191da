-- ===== src/Server/Auth/Tests.antt =====
-- Runs of AuthHandler on the sample tokens.
use jitong_app.Base.{ℕ, ◌≡◌, refl, true, false, none, some, [], ◌∷◌, Bytes, codes, bytes_eq, arith}
use jitong_app.Base.Dict.{find, put, bytes_Eq, nat_eq}
use jitong_app.Transport.Messages.{LoginRq, TokenLoginRq, RefreshTokenRq, LogoutRq}
use jitong_app.Account.DeviceProof.{
  DeviceProofService, make, build_token_login, build_refresh, build_logout,
}
use jitong_app.Server.Login.{Policy, allow, prune_at, blocked_at}
use jitong_app.Server.AuthTable
use jitong_app.Server.AuthTable.{
  AuthSession, c_str, select, update, create_auth_session, insert_session, find_by_access_hash,
  find_by_refresh_hash, rotate_refresh_token, revoke_where,
}
use jitong_app.Server.Tokens.{
  to_hex, random_token, token_hash, new_pair, save, issue, validate_access, revoke_session, Access,
}
use jitong_app.Server.Tokens.Rotate.{
  sweep, remember, store_next, rotate_found, answer, rotate_refresh,
}
use jitong_app.Server.Tokens.Runs.{run}
use jitong_app.Server.Tokens.Samples.{
  env, digest, begin, phone, at_login, first, at_refresh, second, old_row,
}
use jitong_app.Server.DeviceProof.{verify_p256}
use jitong_app.Server.DeviceProof.Injective.{message_injective}
use jitong_app.Server.DeviceKeys.{find_key, get_device_public_key, bind_device_public_key}
use jitong_app.Server.Auth.{
  refresh_rs, logout_rs, token_login_rs, bind_auth, activate_session, Connection, Server, Outside,
  deliver, verify_device,
}
use jitong_app.Server.Auth.Login.{
  on_login, is_malformed, check_password, log_in, valid_mainland_mobile, valid_sha256_proof, all_of,
}
use jitong_app.Server.Auth.Sessions.{
  refresh_failed, on_token_login, on_token_refresh, on_logout, proven, let_in, device_proof_ok,
  owns_session,
}
use jitong_app.Server.Auth.Refreshing.{spent_refresh_dropped}
use jitong_app.Server.Auth.LoggingOut.{on_logout-validate_access}
use jitong_app.Server.Auth.Binding.{
  IsChecked, on_login-IsChecked, IsProven, on_token_login-IsProven,
}
use jitong_app.Server.Auth.Proofs.{IsSigner, built-proven}

abbrev key : Bytes
key = codes "key"

-- The signature of every message.
abbrev sig : Bytes
sig = codes "sig"

abbrev tel : Bytes
tel = codes "13800138000"

abbrev pass : Bytes
pass = codes "0123456789abcdef0123456789abcdef0123456789abcdef0123456789abcdef"

abbrev outside : ℕ → ℕ → Outside ℕ
outside now seed = record {
  digest = digest;
  begin = begin;
  verify = λ k m s. bytes_eq s sig;
  alive = λ _. true;
  tick = now;
  env = env now seed;
  inserts_key = true;
  finds_key = true;
  register_user = λ _ _ _. 0;
  login_user = λ _ _. (0, 7);
  get_user = λ _. none;
  get_friends = λ _. [];
  pull_undelivered = λ _. [];
}

abbrev policy : Policy
policy = record {
  pair_failure_limit = 5;
  ip_failure_limit = 30;
  window = 300;
  pair_block = 60;
  ip_block = 300;
}

abbrev server : Server ℕ
server = record {
  limiter = record { policy = policy; ip_buckets = []; pair_buckets = []; operations = 0 };
  tokens = at_refresh.0;
  presence = [];
  keys = (record { user_id = 7; device_id = phone; public_key = key }) ∷ [];
  outbox = [];
  closing = [];
  marked = [];
}

abbrev stranger : Connection
stranger = record {
  id = 1;
  user_id = 0;
  auth_session_id = [];
  device_id = [];
  access_expires_at = 0;
  app_session_id = codes "app";
  peer_address = codes "10.0.0.7";
}

abbrev owner : Connection
owner = record stranger { user_id = 7; auth_session_id = codes "10"; device_id = phone }

message_injective_example :
    (codes "logout" ≡ codes "logout")
    × (codes "app" ≡ codes "app")
    × (phone ≡ phone)
    × (codes "cred" ≡ codes "cred")
    × (key ≡ key)
message_injective_example =
    message_injective (codes "logout") (codes "app") phone (codes "cred") key (codes "logout")
      (codes "app") phone (codes "cred") key (omega arith) (omega arith) (omega arith) (omega arith)
      (omega arith) (omega arith) (omega arith) (omega arith) (omega arith) (omega arith) refl

abbrev stolen : RefreshTokenRq
stolen = record {
  refresh_token = first.refresh_token;
  device_id = phone;
  request_id = codes "r1";
  device_signature = sig;
}

spent_refresh_dropped_example :
    on_token_refresh (outside 1080 0) (some stolen) owner server
    ≡ (deliver 1 (refresh_rs refresh_failed) server, owner)
unfolding issue new_pair save create_auth_session insert_session random_token to_hex c_str
    token_hash bytes_eq rotate_refresh sweep answer find find_by_refresh_hash select rotate_found
    store_next rotate_refresh_token update remember put run
spent_refresh_dropped_example =
    spent_refresh_dropped (outside 1060 32) (outside 1080 0) phone (codes "r1") stolen second []
      owner at_login.0 server (refl, tt) refl refl (λ e. cc) tt refl refl

abbrev leaving : LogoutRq
leaving = record {
  refresh_token = second.refresh_token;
  device_id = phone;
  logout_all_devices = false;
  device_signature = sig;
}

-- The row after the refresh.
abbrev new_row : AuthSession
new_row = record old_row {
  access_hash = to_hex (codes "20");
  access_expires_at = 1960;
  refresh_hash = to_hex (codes "21");
  refresh_expires_at = 2593060;
  generation = 2;
}

on_logout-validate_access_example :
    let left = on_logout (outside 1090 0) (some leaving) owner server in
    (left.outbox ≡ (owner.id, logout_rs 0) ∷ [])
    × (left.closing ≡ owner.id ∷ [])
    × (validate_access digest (env 1100 0) second.access_token [] phone left.tokens ≡ none)
unfolding issue new_pair save create_auth_session insert_session random_token to_hex c_str
    token_hash bytes_eq rotate_refresh sweep answer find find_by_refresh_hash select rotate_found
    store_next rotate_refresh_token update remember put proven verify_device verify_p256 find_key
    get_device_public_key on_logout revoke_session AuthTable.revoke_session revoke_where
    find_by_access_hash
on_logout-validate_access_example =
    on_logout-validate_access (outside 1090 0) (env 1100 0) leaving owner new_row
      (record new_row { revoked = true }) second.access_token [] phone server refl refl refl refl
      refl refl refl refl

abbrev login : LoginRq
login = record {
  tel = tel;
  pass = pass;
  device_id = phone;
  device_name = [];
  client_version = [];
  device_public_key = key;
  device_signature = sig;
}

on_login-IsChecked_example :
    IsChecked
      (outside 1090 48)
      stranger
      server
      login
      (on_login (outside 1090 48) (some login) stranger server).1.user_id
unfolding issue new_pair save create_auth_session insert_session random_token to_hex c_str
    token_hash bytes_eq rotate_refresh sweep answer find find_by_refresh_hash select rotate_found
    store_next rotate_refresh_token update remember put verify_device verify_p256 find_key on_login
    allow prune_at blocked_at is_malformed valid_mainland_mobile valid_sha256_proof all_of
    check_password log_in bind_device_public_key
on_login-IsChecked_example = on_login-IsChecked (outside 1090 48) stranger server login refl refl

abbrev by_token : TokenLoginRq
by_token = record {
  access_token = second.access_token;
  device_id = phone;
  request_id = codes "10";
  device_signature = sig;
}

on_token_login-IsProven_example :
    IsProven
      (outside 1090 0)
      stranger
      server
      by_token
      (on_token_login (outside 1090 0) (some by_token) stranger server).1.user_id
unfolding issue new_pair save create_auth_session insert_session random_token to_hex c_str
    token_hash bytes_eq rotate_refresh sweep answer find find_by_refresh_hash select rotate_found
    store_next rotate_refresh_token update remember put proven verify_device verify_p256 find_key
    get_device_public_key on_token_login find_by_access_hash validate_access
on_token_login-IsProven_example =
    on_token_login-IsProven (outside 1090 0) stranger server by_token refl refl

abbrev prover : DeviceProofService
prover = record { signer = record { public_key_der = key; sign = λ m. sig }; device_id = phone }

signs : IsSigner (λ k m s. bytes_eq s sig) prover.signer
unfolding bytes_eq
signs = record {
  has_key = refl;
  key_fits = omega arith;
  signature_fits = λ m. omega arith;
  verifies = λ m. refl;
}

abbrev granted : Access
granted = record { user_id = 7; session_id = codes "10"; expires_at = 1960 }

abbrev rotation : RefreshTokenRq
rotation = record {
  refresh_token = second.refresh_token;
  device_id = phone;
  request_id = codes "10";
  device_signature = sig;
}

built-proven_example :
    (let_in (outside 1090 0) by_token owner server (some granted) ≡ (
      activate_session (outside 1090 0) 1 7 (
          deliver 1
            (token_login_rs (record { result = 0; userid = 7; access_token_expire_at = 1960 }))
            server),
      bind_auth 7 (codes "10") phone 1960 owner,
    ))
    × (device_proof_ok (outside 1090 0) rotation owner server (some new_row) ≡ true)
    × (owns_session (outside 1090 0) leaving owner server new_row ≡ true)
unfolding make build_token_login build_refresh build_logout get_device_public_key find_key c_str
    bytes_eq
built-proven_example =
    built-proven (outside 1090 0) prover owner signs server granted new_row second.access_token
      second.refresh_token (codes "10") false by_token rotation leaving refl refl refl refl refl
