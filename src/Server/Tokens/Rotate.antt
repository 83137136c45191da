-- ===== src/Server/Tokens/Rotate.antt =====
-- TokenService::rotateRefresh. `begin` is the key that the unordered_map of results iterates first.
use jitong_app.Base.{
  ℕ, ◌+◌, ◌*◌, not, ◌||◌, Option, none, some, Bytes, bytes_eq, is_empty, ltb, leb, if◌then◌else◌,
  keep, length,
}
use jitong_app.Base.Dict.{find, erase, put, bytes_Eq}
use jitong_app.Server.AuthTable.{
  AuthSession, find_by_refresh_hash, rotate_refresh_token, was_refresh_token_used,
  revoke_token_family,
}
use jitong_app.Server.Tokens.{TokenPair, Cached, Results, Service, Env, token_hash, random_token}

-- `refused` holds the outRevokedUserId that was set.
pub data Rotated : Type 0 where
  rotated : TokenPair → Rotated
  refused : Option ℕ → Rotated
  threw : Rotated

-- The loop that drops the results whose time is over.
unfoldable pub sweep : ℕ → Results → Results
sweep now results = keep (λ x. not (leb x.1.expires_at now)) results

abbrev pub positive : ℕ → Option ℕ
positive user = if ltb 0 user then some user else none

abbrev pub revoke_family : Env → Service → Option Bytes → Service × Rotated
revoke_family e s none = (s, refused none)
revoke_family e s (some family) =
    let revoked = revoke_token_family e.sqlite family s.db in
    if is_empty family
    then (s, refused none)
    else (record s { db = revoked.0 }, refused (positive revoked.1))

-- A hash that is not a current one: where it was one before, its family is revoked.
unfoldable pub refuse_used : Env → Bytes → Service → Service × Rotated
refuse_used e old_hash s = revoke_family e s (was_refresh_token_used e.sqlite old_hash s.db)

-- m_refreshResults.emplace, after the eviction that keeps at most 1024 results.
unfoldable pub remember : (Results → Bytes) → Bytes → Cached → Results → Results
remember begin request c results =
    if leb 1024 (length results)
    then put request c (erase (begin results) results)
    else put request c results

abbrev pub next_pair : Env → AuthSession → Bytes → Bytes → TokenPair
next_pair e old access refresh = record {
  session_id = old.session_id;
  family_id = old.family_id;
  access_token = access;
  refresh_token = refresh;
  access_expires_at = e.now + 15 * 60;
  refresh_expires_at = e.now + 30 * 24 * 60 * 60;
}

abbrev pub repeat : Bytes → Bytes → Service → Cached → Service × Rotated
repeat old_hash device s c =
    if not (bytes_eq c.refresh_hash old_hash) || not (bytes_eq c.device_id device)
    then (s, refused none)
    else (s, rotated c.pair)

module _ (digest : Bytes → Bytes) (begin : Results → Bytes) where
  unfoldable pub store_next :
      Env → AuthSession → Bytes → Bytes → Bytes → TokenPair → Service → Service × Rotated
  store_next e old old_hash device request next s =
      let stored =
        rotate_refresh_token e.sqlite old old_hash (token_hash digest next.access_token)
          next.access_expires_at (token_hash digest next.refresh_token) next.refresh_expires_at
          s.db in
      let c : Cached = record {
        refresh_hash = old_hash;
        device_id = device;
        pair = next;
        expires_at = e.now + 120;
      } in
      if stored.1
      then (
        record { db = stored.0; refresh_results = remember begin request c s.refresh_results },
        rotated next,
      )
      else refuse_used e old_hash s

  -- The rotation of a session that was found.
  unfoldable pub rotate_found :
      Env → AuthSession → Bytes → Bytes → Bytes → Service → Service × Rotated
  rotate_found e old old_hash device request s =
      if old.revoked || (leb old.refresh_expires_at e.now || not (bytes_eq old.device_id device))
      then (s, refused none)
      else elim (random_token e 0) [
        | none ↦ (s, threw)
        | some access ↦ elim (random_token e 1) [
          | none ↦ (s, threw)
          | some refresh ↦
              store_next e old old_hash device request (next_pair e old access refresh) s
        ]
      ]

  abbrev pub rotate_or_refuse :
      Env → Bytes → Bytes → Bytes → Service → Option AuthSession → Service × Rotated
  rotate_or_refuse e old_hash device request s none = refuse_used e old_hash s
  rotate_or_refuse e old_hash device request s (some old) =
      rotate_found e old old_hash device request s

  -- rotateRefresh after the sweep.
  unfoldable pub answer : Env → Bytes → Bytes → Bytes → Service → Service × Rotated
  answer e old_hash device request s = elim (find request s.refresh_results) [
    | some c ↦ repeat old_hash device s c
    | none ↦
        rotate_or_refuse e old_hash device request s (find_by_refresh_hash e.sqlite old_hash s.db)
  ]

  unfoldable pub rotate_refresh : Env → Bytes → Bytes → Bytes → Service → Service × Rotated
  rotate_refresh e token device request s =
      let swept = record s { refresh_results = sweep e.now s.refresh_results } in
      if is_empty token || (is_empty device || is_empty request)
      then (s, refused none)
      else answer e (token_hash digest token) device request swept
