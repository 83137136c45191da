-- ===== src/Server/Auth/LoggingOut.antt =====
-- AuthHandler::onLogout: what a logout that was accepted takes away.
use jitong_app.Base.{
  ◌≡◌, refl, ap, ◌∙◌, Bool, true, false, none, some, List, [], ◌∷◌, ◌++◌, Bytes, bytes_eq, is_empty,
  ltb, ◌==◌, arith, if◌then◌else◌,
}
use jitong_app.Transport.Messages.{LogoutRq}
use jitong_app.Server.AuthTable.{
  AuthSession, Row, Db, Sqlite, c_str, select, update, revoke, revoke_where, find_by_access_hash,
  find_by_refresh_hash, revoke_all_user_sessions,
}
use jitong_app.Server.AuthTable
use jitong_app.Server.Tokens.{
  Service, Env, token_hash, validate_access, revoke_session, revoke_all_for_user,
}
use jitong_app.Server.Auth.{Connection, Server, Outside, logout_rs}
use jitong_app.Server.Auth.Sessions.{owns_session, on_logout}

-- A query that finds a row after the revocation of the rows that satisfy `p` finds it revoked, where
-- it satisfies `p`, as which it does not depend on the revocation.
select-revoke :
    (p w : AuthSession → Bool) (rows : List Row) (x : AuthSession)
    → ((r : Row) → p (revoke r).session ≡ p r.session)
    → select w (update p revoke rows) ≡ some x
    → p x ≡ true
    → x.revoked ≡ true
unfolding select update
select-revoke p w [] x k e q = cc
select-revoke p w (r ∷ rows) x k e q = ground (arith, k r, select-revoke p w rows x k)

validate_access-revoked :
    (digest : Bytes → Bytes) (e : Env) (token sid device : Bytes) (x : AuthSession) (s : Service)
    → find_by_access_hash e.sqlite (token_hash digest token) s.db ≡ some x
    → x.revoked ≡ true
    → validate_access digest e token sid device s ≡ none
unfolding validate_access
validate_access-revoked digest e token sid device x s f r = ground arith

-- The WHERE clause of a logout, of all devices or of one session.
abbrev left_by : Bool → AuthSession → AuthSession → Bool
left_by true r x = x.user_id == r.user_id
left_by false r x = bytes_eq x.session_id (c_str r.session_id)

db-revocation :
    (e : Env) (all : Bool) (r : AuthSession) (s : Service)
    → ltb 0 r.user_id ≡ true
    → is_empty r.session_id ≡ false
    → (if all then revoke_all_for_user e r.user_id s else revoke_session e r.session_id s).db
      ≡ revoke_where e.sqlite (left_by all r) s.db
unfolding revoke_all_for_user revoke_session AuthTable.revoke_session revoke_all_user_sessions
db-revocation e true r s a b = ground arith
db-revocation e false r s a b = ground arith

left_by-revoke :
    (all : Bool) (r : AuthSession) (x : Row)
    → left_by all r (revoke x).session ≡ left_by all r x.session
left_by-revoke true r x = refl
left_by-revoke false r x = refl

-- The rows that a logout revokes.
abbrev pub IsLoggedOut : LogoutRq → AuthSession → AuthSession → Type 0
IsLoggedOut rq r x = left_by rq.logout_all_devices r x ≡ true

found_after :
    (q q' : Sqlite) (p : AuthSession → Bool) (hash : Bytes) (x : AuthSession) (d : Db)
    → q.prepares_revoke ≡ true
    → q.runs_revoke ≡ true
    → find_by_access_hash q' hash (revoke_where q p d) ≡ some x
    → select (λ s. bytes_eq s.access_hash (c_str hash)) (update p revoke d.sessions) ≡ some x
unfolding find_by_access_hash revoke_where
found_after q q' p hash x d a b f = ground arith

module _ {Chat : Type 0} where
  tokens-log_out :
      (o : Outside Chat) (rq : LogoutRq) (c : Connection) (r : AuthSession) (s : Server Chat)
      → is_empty rq.refresh_token ≡ false
      → find_by_refresh_hash o.env.sqlite (token_hash o.digest rq.refresh_token) s.tokens.db
        ≡ some r
      → owns_session o rq c s r ≡ true
      → (on_logout o (some rq) c s).tokens ≡ (
          if rq.logout_all_devices
          then revoke_all_for_user o.env r.user_id s.tokens
          else revoke_session o.env r.session_id s.tokens)
  unfolding on_logout
  tokens-log_out o rq c r s a f w = ground (arith, a, f, w)

  owner_positive :
      (o : Outside Chat) (rq : LogoutRq) (c : Connection) (r : AuthSession) (s : Server Chat)
      → owns_session o rq c s r ≡ true
      → ltb 0 r.user_id ≡ true
  owner_positive o rq c r s w = ground (arith, w)

  -- The statement of a logout.
  db-log_out :
      (o : Outside Chat) (rq : LogoutRq) (c : Connection) (r : AuthSession) (s : Server Chat)
      → is_empty rq.refresh_token ≡ false
      → find_by_refresh_hash o.env.sqlite (token_hash o.digest rq.refresh_token) s.tokens.db
        ≡ some r
      → owns_session o rq c s r ≡ true
      → is_empty r.session_id ≡ false
      → (on_logout o (some rq) c s).tokens.db
        ≡ revoke_where o.env.sqlite (left_by rq.logout_all_devices r) s.tokens.db
  db-log_out o rq c r s a f w b =
      ap (λ (t : Service). t.db) (tokens-log_out o rq c r s a f w)
      ∙ db-revocation o.env rq.logout_all_devices r s.tokens (owner_positive o rq c r s w) b

  answer-log_out :
      (o : Outside Chat) (rq : LogoutRq) (c : Connection) (r : AuthSession) (s : Server Chat)
      → is_empty rq.refresh_token ≡ false
      → find_by_refresh_hash o.env.sqlite (token_hash o.digest rq.refresh_token) s.tokens.db
        ≡ some r
      → owns_session o rq c s r ≡ true
      → ((on_logout o (some rq) c s).outbox ≡ s.outbox ++ (c.id, logout_rs 0) ∷ [])
        × ((on_logout o (some rq) c s).closing ≡ s.closing ++ c.id ∷ [])
  unfolding on_logout
  answer-log_out o rq c r s a f w = ground (arith, a, f, w)

  -- A logout whose refresh token finds the session `r`, which the connection owns, is accepted: the
  -- one packet it sends is the answer 0 on this connection, which is then closed. Afterwards no
  -- access token is valid whose row has that session's id, or its user where all
  -- devices were to be logged out. The token and the session's id are not empty, and sqlite runs the
  -- update.
  pub on_logout-validate_access :
      (o : Outside Chat) (e : Env) (rq : LogoutRq) (c : Connection) (r x : AuthSession)
      (token sid device : Bytes) (s : Server Chat)
      → let left = on_logout o (some rq) c s in
        let after = left.tokens in
        is_empty rq.refresh_token ≡ false
        → find_by_refresh_hash o.env.sqlite (token_hash o.digest rq.refresh_token) s.tokens.db
          ≡ some r
        → owns_session o rq c s r ≡ true
        → is_empty r.session_id ≡ false
        → o.env.sqlite.prepares_revoke ≡ true
        → o.env.sqlite.runs_revoke ≡ true
        → find_by_access_hash e.sqlite (token_hash o.digest token) after.db ≡ some x
        → IsLoggedOut rq r x
        → (left.outbox ≡ s.outbox ++ (c.id, logout_rs 0) ∷ [])
          × (left.closing ≡ s.closing ++ c.id ∷ [])
          × (validate_access o.digest e token sid device after ≡ none)
  on_logout-validate_access o e rq c r x token sid device s a f w b q1 q2 g m =
      let all = rq.logout_all_devices in
      let same = db-log_out o rq c r s a f w b in
      let query = λ (y : AuthSession). bytes_eq y.access_hash (c_str (token_hash o.digest token)) in
      let found : select query (update (left_by all r) revoke s.tokens.db.sessions) ≡ some x =
        found_after o.env.sqlite e.sqlite (left_by all r) (token_hash o.digest token) x s.tokens.db
          q1 q2 (rw same at g) in
      let answered = answer-log_out o rq c r s a f w in
      (
        answered.0,
        answered.1,
        validate_access-revoked o.digest e token sid device x (on_logout o (some rq) c s).tokens g (
            select-revoke (left_by all r) query s.tokens.db.sessions x (left_by-revoke all r) found
              m),
      )
