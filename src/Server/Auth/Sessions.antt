-- ===== src/Server/Auth/Sessions.antt =====
-- AuthHandler::onTokenLogin, onTokenRefresh and onLogout.
use jitong_app.Base.{
  ℕ, Bool, false, not, ◌&&◌, ◌||◌, Option, none, some, [], ◌∷◌, ◌++◌, Bytes, codes, ltb, leb, ◌==◌,
  if◌then◌else◌, length, is_empty, bytes_eq,
}
use jitong_app.Transport.Messages.{TokenLoginRq, RefreshTokenRq, RefreshTokenRs, LogoutRq}
use jitong_app.Server.Presence.{get}
use jitong_app.Server.AuthTable.{AuthSession, find_by_refresh_hash}
use jitong_app.Server.Tokens.{
  TokenPair, Service, Access, token_hash, validate_access, revoke_session, revoke_all_for_user,
}
use jitong_app.Server.Tokens.Rotate.{Rotated, rotated, refused, threw, rotate_refresh}
use jitong_app.Server.DeviceKeys.{get_device_public_key}
use jitong_app.Server.Auth.{
  token_login_rs, refresh_rs, logout_rs, kicked_offline, Connection, Server, Outside, authenticated,
  bind_auth, deliver, close_after_write, verify_device, activate_session,
}

abbrev pub refresh_failed : RefreshTokenRs
refresh_failed = record {
  result = 1;
  access_token = [];
  refresh_token = [];
  access_token_expire_at = 0;
  refresh_token_expire_at = 0;
  session_id = [];
}

abbrev pub refreshed : TokenPair → RefreshTokenRs
refreshed p = record {
  result = 0;
  access_token = p.access_token;
  refresh_token = p.refresh_token;
  access_token_expire_at = p.access_expires_at;
  refresh_token_expire_at = p.refresh_expires_at;
  session_id = p.session_id;
}

module _ {Chat : Type 0} where
  -- The proof of a device whose key is in the table.
  abbrev pub verify_with :
      Outside Chat → Connection → Bytes → Bytes → Bytes → Bytes → Option Bytes → Bool
  verify_with o c operation device credential signature none = false
  verify_with o c operation device credential signature (some key) =
      verify_device o c operation device credential key signature false

  unfoldable pub proven :
      Outside Chat → Connection → Bytes → ℕ → Bytes → Bytes → Bytes → Server Chat → Bool
  proven o c operation user device credential signature s =
      verify_with o c operation device credential signature
        (get_device_public_key o.finds_key user device s.keys)

  abbrev refuse_login : Connection → Server Chat → Server Chat × Connection
  refuse_login c s = (
    deliver c.id (token_login_rs (record { result = 2; userid = 0; access_token_expire_at = 0 })) s,
    c,
  )

  abbrev pub let_in :
      Outside Chat
      → TokenLoginRq
      → Connection
      → Server Chat
      → Option Access
      → Server Chat × Connection
  let_in o rq c s none = refuse_login c s
  let_in o rq c s (some a) =
      let answered =
        deliver c.id
          (token_login_rs
            (record { result = 0; userid = a.user_id; access_token_expire_at = a.expires_at }))
          s in
      if proven o c (codes "token-login") a.user_id rq.device_id rq.access_token rq.device_signature
        s
      then (
        activate_session o c.id a.user_id answered,
        bind_auth a.user_id a.session_id rq.device_id a.expires_at c,
      )
      else refuse_login c s

  unfoldable pub on_token_login :
      Outside Chat → Option TokenLoginRq → Connection → Server Chat → Server Chat × Connection
  unfolding proven
  on_token_login o none c s = (s, c)
  on_token_login o (some rq) c s =
      if authenticated c || (ltb 128 (length rq.device_id) || is_empty rq.device_signature)
      then refuse_login c s
      else let_in o rq c s (validate_access o.digest o.env rq.access_token [] rq.device_id s.tokens)

  -- deviceProofOk, given the session that the token's hash finds.
  abbrev pub device_proof_ok :
      Outside Chat → RefreshTokenRq → Connection → Server Chat → Option AuthSession → Bool
  device_proof_ok o rq c s none = false
  device_proof_ok o rq c s (some r) =
      not r.revoked
      && (bytes_eq r.device_id rq.device_id
          && proven o c (codes "token-refresh") r.user_id rq.device_id
              (rq.refresh_token ++ 0 ∷ rq.request_id) rq.device_signature s)

  abbrev pub kick : Outside Chat → Option ℕ → Server Chat → Server Chat
  kick o none s = s
  kick o (some user) s = elim (get o.alive user s.presence) [
    | none ↦ s
    | some live ↦ close_after_write live (deliver live kicked_offline s)
  ]

  -- The end of a refresh: an exception leaves the handler before any answer.
  abbrev pub finish_refresh :
      Outside Chat
      → RefreshTokenRq
      → Connection
      → Server Chat
      → Service × Rotated
      → Server Chat × Connection
  finish_refresh o rq c s (tokens, threw) = (record s { tokens = tokens }, c)
  finish_refresh o rq c s (tokens, refused user) =
      (deliver c.id (refresh_rs refresh_failed) (kick o user (record s { tokens = tokens })), c)
  finish_refresh o rq c s (tokens, rotated p) = (
    deliver c.id (refresh_rs (refreshed p)) (record s { tokens = tokens }),
    if authenticated c
        then bind_auth c.user_id p.session_id rq.device_id p.access_expires_at c
        else c,
  )

  unfoldable pub on_token_refresh :
      Outside Chat → Option RefreshTokenRq → Connection → Server Chat → Server Chat × Connection
  unfolding proven
  on_token_refresh o none c s = (s, c)
  on_token_refresh o (some rq) c s =
      let hash = token_hash o.digest rq.refresh_token in
      if leb (length rq.device_id) 128
        && (leb (length rq.request_id) 128
            && (not (is_empty rq.device_signature)
                && device_proof_ok o rq c s (find_by_refresh_hash o.env.sqlite hash s.tokens.db)))
      then finish_refresh o rq c s (
          rotate_refresh o.digest o.begin o.env rq.refresh_token rq.device_id rq.request_id
            s.tokens)
      else finish_refresh o rq c s (s.tokens, refused none)

  -- ownsSession, given the session that the token's hash finds.
  abbrev pub owns_session : Outside Chat → LogoutRq → Connection → Server Chat → AuthSession → Bool
  owns_session o rq c s r =
      not r.revoked
      && (bytes_eq r.device_id rq.device_id
          && (proven o c (codes "logout") r.user_id rq.device_id
                (rq.refresh_token ++ 0 ∷ (if rq.logout_all_devices then 49 else 48) ∷ [])
                rq.device_signature s
              && (authenticated c
                  && (c.user_id == r.user_id
                      && (bytes_eq c.device_id r.device_id
                          && bytes_eq c.auth_session_id r.session_id)))))

  abbrev pub log_out :
      Outside Chat → LogoutRq → Connection → Server Chat → Option AuthSession → Server Chat
  log_out o rq c s none = deliver c.id (logout_rs 1) s
  log_out o rq c s (some r) =
      let left =
        if rq.logout_all_devices
        then revoke_all_for_user o.env r.user_id s.tokens
        else revoke_session o.env r.session_id s.tokens in
      if owns_session o rq c s r
      then close_after_write c.id (deliver c.id (logout_rs 0) (record s { tokens = left }))
      else deliver c.id (logout_rs 1) s

  unfoldable pub on_logout : Outside Chat → Option LogoutRq → Connection → Server Chat → Server Chat
  unfolding proven
  on_logout o none c s = s
  on_logout o (some rq) c s =
      if is_empty rq.refresh_token
      then deliver c.id (logout_rs 1) s
      else log_out o rq c s
          (find_by_refresh_hash o.env.sqlite (token_hash o.digest rq.refresh_token) s.tokens.db)
