-- ===== src/Server/Tokens.antt =====
-- im_server/src/auth/TokenService.cpp and TokenService.h, on the tables of Server/AuthTable.antt.
-- `digest` is SHA-256, which does not fail here, `random k` the bytes of a call's k-th RAND_bytes,
-- none where it fails, and `begin` the key that the unordered_map of results iterates first. A call
-- that throws answers `threw`. The times do not overflow.
pub mod Rotate
pub mod Runs
pub mod Fresh
pub mod Stable
pub mod Reuse
pub mod Cache
pub mod Repeat
pub mod Grants
mod Tests
pub mod Samples
use jitong_app.Base.{
  ℕ, ◌+◌, ◌*◌, ◌/◌, ◌%◌, Bool, true, false, not, ◌&&◌, ◌||◌, Option, none, some, List, [], ◌∷◌,
  Bytes, bytes_eq, is_empty, ltb, leb, if◌then◌else◌, keep, length, ◌>>=◌,
}
use jitong_app.Base.Dict.{find, erase, put, bytes_Eq}
use jitong_app.Server.AuthTable.{
  AuthSession, Db, Sqlite, create_auth_session, find_by_access_hash, find_by_refresh_hash,
  rotate_refresh_token, was_refresh_token_used, revoke_token_family, revoke_all_user_sessions,
}
use jitong_app.Server.AuthTable

pub record TokenPair : Type 0 where
  pub session_id : Bytes
  pub family_id : Bytes
  pub access_token : Bytes
  pub refresh_token : Bytes
  pub access_expires_at : ℕ
  pub refresh_expires_at : ℕ

-- RefreshResultCacheEntry
pub record Cached : Type 0 where
  pub refresh_hash : Bytes
  pub device_id : Bytes
  pub pair : TokenPair
  pub expires_at : ℕ

abbrev pub Results : Type 0
Results = List (Bytes × Cached)

pub record Service : Type 0 where
  pub db : Db
  pub refresh_results : Results

-- What one call meets outside: the time, the random bytes and sqlite.
pub record Env : Type 0 where
  pub now : ℕ
  pub random : ℕ → Option Bytes
  pub sqlite : Sqlite

-- What validateAccess returns through its references.
pub record Access : Type 0 where
  pub user_id : ℕ
  pub session_id : Bytes
  pub expires_at : ℕ

pub data Issued : Type 0 where
  issued : TokenPair → Issued
  threw : Issued

abbrev pub hex_digit : ℕ → ℕ
hex_digit n = if ltb n 10 then 48 + n else 87 + n

unfoldable pub to_hex : Bytes → Bytes
to_hex [] = []
to_hex (b ∷ bs) = hex_digit (b / 16) ∷ hex_digit (b % 16) ∷ to_hex bs

unfoldable pub random_token : Env → ℕ → Option Bytes
random_token e k = do bytes ← e.random k; some (to_hex bytes)

-- The pair that `issue` makes up, none where a draw throws.
unfoldable pub new_pair : Env → Option TokenPair
new_pair e = do
  session ← random_token e 0
  family ← random_token e 1
  access ← random_token e 2
  refresh ← random_token e 3
  some (record {
    session_id = session;
    family_id = family;
    access_token = access;
    refresh_token = refresh;
    access_expires_at = e.now + 5 * 60;
    refresh_expires_at = e.now + 2 * 24 * 60 * 60;
  })

abbrev pub is_refused : ℕ → Bytes → Bytes → AuthSession → Bool
is_refused now sid device r =
    r.revoked
    || (leb r.access_expires_at now
        || (not (bytes_eq r.device_id device)
            || (not (is_empty sid) && not (bytes_eq r.session_id sid))))

abbrev pub granted : ℕ → Bytes → Bytes → AuthSession → Option Access
granted now sid device r =
    if is_refused now sid device r
    then none
    else some (record {
      user_id = r.user_id;
      session_id = r.session_id;
      expires_at = r.access_expires_at;
    })

module _ (digest : Bytes → Bytes) where
  unfoldable pub token_hash : Bytes → Bytes
  token_hash token = to_hex (digest token)

  unfoldable pub save : Env → ℕ → Bytes → Service → TokenPair → Service × Issued
  unfolding token_hash
  save e user device s pair =
      let saved =
        create_auth_session e.sqlite pair.session_id pair.family_id user device
          (token_hash pair.access_token) pair.access_expires_at (token_hash pair.refresh_token)
          pair.refresh_expires_at s.db in
      if saved.1 then (record s { db = saved.0 }, issued pair) else (s, threw)

  unfoldable pub issue : Env → ℕ → Bytes → Service → Service × Issued
  unfolding new_pair save
  issue e user device s = elim (new_pair e) [
    | none ↦ (s, threw)
    | some pair ↦ save e user device s pair
  ]

  unfoldable pub validate_access : Env → Bytes → Bytes → Bytes → Service → Option Access
  validate_access e token sid device s =
      if is_empty token || is_empty device
      then none
      else (find_by_access_hash e.sqlite (token_hash token) s.db >>= granted e.now sid device)

unfoldable pub revoke_session : Env → Bytes → Service → Service
revoke_session e sid s =
    if is_empty sid then s else record s { db = AuthTable.revoke_session e.sqlite sid s.db }

unfoldable pub revoke_all_for_user : Env → ℕ → Service → Service
revoke_all_for_user e user s =
    if ltb 0 user then record s { db = revoke_all_user_sessions e.sqlite user s.db } else s
