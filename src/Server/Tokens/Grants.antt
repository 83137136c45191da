-- ===== src/Server/Tokens/Grants.antt =====
-- TokenService::validateAccess on the pairs that issue and rotateRefresh return.
use mathlib.Core.Path.{subst}
use jitong_app.Base.{
  ℕ, ◌+◌, ◌<◌, ◌≡◌, refl, sym, ap, ◌∙◌, true, false, ◌||◌, none, some, Bytes, bytes_eq,
  bytes_eq_refl, is_empty, arith, Option-cases, inl, inr,
}
use jitong_app.Base.Dict.{find, bytes_Eq}
use jitong_app.Server.AuthTable.{
  AuthSession, c_str, select, create_auth_session, insert_session, find_by_access_hash, new_session,
  find_by_refresh_hash,
}
use jitong_app.Server.AuthTable.Unique.{Apart}
use jitong_app.Server.AuthTable.History.{hashed}
use jitong_app.Server.AuthTable.Renewal.{
  has_access, select-insert_session, select-rotate_refresh_token, renewed_session,
}
use jitong_app.Server.Tokens.{
  TokenPair, Results, Service, Env, Issued, issued, token_hash, new_pair, save, issue, is_refused,
  validate_access,
}
use jitong_app.Server.Tokens.Runs.{new_pair_lem}
use jitong_app.Server.Tokens.Rotate.{rotated, sweep, rotate_refresh}
use jitong_app.Server.Tokens.Fresh.{rotate_refresh_lem, statement}

module _ (digest : Bytes → Bytes) where
  -- A row that the token's hash finds, which is live and of the device, lets its user in.
  granted_lem :
      (e : Env) (token sid device : Bytes) (r : AuthSession) (s : Service)
      → e.sqlite.finds ≡ true
      → select (has_access (c_str (token_hash digest token))) s.db.sessions ≡ some r
      → is_empty token ≡ false
      → is_empty device ≡ false
      → is_refused e.now sid device r ≡ false
      → validate_access digest e token sid device s
        ≡ some (record {
          user_id = r.user_id;
          session_id = r.session_id;
          expires_at = r.access_expires_at;
        })
  unfolding validate_access find_by_access_hash
  granted_lem e token sid device r s q f a b g = ground arith

  abbrev stored : ℕ → Bytes → TokenPair → AuthSession
  stored user device p =
      new_session p.session_id p.family_id user device (token_hash digest p.access_token)
        p.access_expires_at (token_hash digest p.refresh_token) p.refresh_expires_at

  -- The row of the pair went into the table.
  abbrev Saved : Env → ℕ → Bytes → TokenPair → Service → Service → Type 0
  Saved e user device p s t =
      (p.access_expires_at ≡ e.now + 300)
      × ((insert_session e.sqlite (stored user device p) s.db).1 ≡ true)
      × (t.db ≡ (insert_session e.sqlite (stored user device p) s.db).0)

  save_lem :
      (e : Env) (user : ℕ) (device : Bytes) (p next : TokenPair) (s : Service)
      → next.access_expires_at ≡ e.now + 300
      → (save digest e user device s next).1 ≡ issued p
      → Saved e user device p s (save digest e user device s next).0
  unfolding save create_auth_session
  save_lem e user device p next s n h = ground arith

  issue_lem :
      (e : Env) (user : ℕ) (device : Bytes) (p : TokenPair) (s : Service)
      → (issue digest e user device s).1 ≡ issued p
      → Saved e user device p s (issue digest e user device s).0
  unfolding issue
  issue_lem e user device p s h = elim (Option-cases (new_pair e)) [
    | inl n ↦ ground arith
    | inr (next, n) ↦
        let same : issue digest e user device s ≡ save digest e user device s next = ground arith in
        let l =
          save_lem e user device p next s (new_pair_lem e next n).2
            (ap (λ (x : Service × Issued). x.1) (sym same) ∙ h) in
        subst (λ (x : Service × Issued). Saved e user device p s x.0) (sym same) l
  ]

  -- The access token of a pair that was issued lets its user in from the same device, with the
  -- session's id or with none, for the 300 seconds after the issue. The device id holds no zero
  -- byte, the token is not the empty string, and sqlite runs the query.
  pub issue-validate_access :
      (e e' : Env) (user : ℕ) (device sid : Bytes) (p : TokenPair) (s : Service)
      → (issue digest e user device s).1 ≡ issued p
      → c_str device ≡ device
      → is_empty device ≡ false
      → is_empty p.access_token ≡ false
      → (is_empty sid || bytes_eq (c_str p.session_id) sid) ≡ true
      → e'.sqlite.finds ≡ true
      → e'.now < e.now + 300
      → validate_access digest e' p.access_token sid device (issue digest e user device s).0
        ≡ some
            (record { user_id = user; session_id = c_str p.session_id; expires_at = e.now + 300 })
  issue-validate_access e e' user device sid p s h c a b m q t =
      let saved = issue_lem e user device p s h in
      let after = (issue digest e user device s).0 in
      let found : select (has_access (c_str (token_hash digest p.access_token))) after.db.sessions
          ≡ some (stored user device p) =
        rw saved.2 (select-insert_session e.sqlite (stored user device p) s.db saved.1) in
      let live : is_refused e'.now sid device (stored user device p) ≡ false =
        ground (arith, saved.0, bytes_eq_refl device) in
      granted_lem e' p.access_token sid device (stored user device p) after q found b a live
      ∙ ap
          (λ (x : ℕ).
            some (record { user_id = user; session_id = c_str p.session_id; expires_at = x }))
          saved.0

  -- The access token of a pair that a rotation made lets the user of the rotated session in from
  -- the same device for 900 seconds. The request id had no result, no two rows share a hash or a
  -- session id, the token is not the empty string, and sqlite runs the query.
  pub rotate_refresh-validate_access :
      (begin : Results → Bytes) (e e' : Env) (token device request : Bytes) (p : TokenPair)
      (old : AuthSession) (s : Service)
      → Apart s.db.sessions
      → find request (sweep e.now s.refresh_results) ≡ none
      → find_by_refresh_hash e.sqlite (token_hash digest token) s.db ≡ some old
      → (rotate_refresh digest begin e token device request s).1 ≡ rotated p
      → is_empty device ≡ false
      → is_empty p.access_token ≡ false
      → e'.sqlite.finds ≡ true
      → e'.now < e.now + 900
      → validate_access digest e' p.access_token p.session_id device
          (rotate_refresh digest begin e token device request s).0
        ≡ some (record {
          user_id = old.user_id;
          session_id = old.session_id;
          expires_at = e.now + 900;
        })
  unfolding find_by_refresh_hash
  rotate_refresh-validate_access begin e e' token device request p old s u n f h a b q t =
      let hash = token_hash digest token in
      let r = rotate_refresh_lem digest begin e hash device request token p s refl n h in
      let access = token_hash digest p.access_token in
      let after = (rotate_refresh digest begin e token device request s).0 in
      let same : old ≡ r.old = ground (arith, f, r.found) in
      let row : AuthSession =
        renewed_session old access p.access_expires_at (token_hash digest p.refresh_token)
          p.refresh_expires_at in
      let by_hash : select (hashed r.old hash) s.db.sessions ≡ some old = ground (arith, f) in
      let renewed =
        select-rotate_refresh_token e.sqlite r.old hash access (token_hash digest p.refresh_token)
          p.access_expires_at p.refresh_expires_at s.db old u by_hash r.stored in
      let db : after.db ≡ (statement digest begin e hash device request r.old p s.db).0 =
        ap (λ (x : Service). x.db) r.after in
      let found : select (has_access (c_str access)) after.db.sessions ≡ some row = rw db renewed in
      let until : p.access_expires_at ≡ e.now + 900 =
        ap (λ (x : TokenPair). x.access_expires_at) r.pair in
      let sid : p.session_id ≡ old.session_id =
        ap (λ (x : TokenPair). x.session_id) r.pair
        ∙ ap (λ (x : AuthSession). x.session_id) (sym same) in
      let live : is_refused e'.now p.session_id device row ≡ false = ground (
        arith,
        until,
        sid,
        r.live,
        bytes_eq_refl device,
        bytes_eq_refl old.session_id,
        ap (λ (x : AuthSession). x.revoked) same,
        ap (λ (x : AuthSession). x.device_id) same ∙ r.same_device,
      ) in
      granted_lem e' p.access_token p.session_id device row after q found b a live
      ∙ ap
          (λ (x : ℕ).
            some (record { user_id = old.user_id; session_id = old.session_id; expires_at = x }))
          until
