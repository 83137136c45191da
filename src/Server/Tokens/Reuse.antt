-- ===== src/Server/Tokens/Reuse.antt =====
-- TokenService: a refresh token that was rotated away and comes back revokes its family.
use mathlib.Core.Path.{subst}
use jitong_app.Base.{All, ◌≡◌, refl, sym, ap, true, false, none, some, List, Bytes, is_empty, arith}
use jitong_app.Base.Dict.{find, bytes_Eq}
use jitong_app.Server.AuthTable.{
  AuthSession, c_str, find_by_access_hash, find_by_refresh_hash, was_refresh_token_used,
  revoke_token_family,
}
use jitong_app.Server.AuthTable.Unique.{Apart}
use jitong_app.Server.AuthTable.Revoked.{IsRevoked, select-revoked, revoke_token_family_lem}
use jitong_app.Server.AuthTable.History.{IsSpent}
use jitong_app.Server.AuthTable.Renewal.{has_access, rotate_refresh_token-IsSpent_new}
use jitong_app.Server.Tokens.{TokenPair, Results, Service, Env, token_hash, validate_access}
use jitong_app.Server.Tokens.Rotate.{
  Rotated, rotated, refused, sweep, positive, refuse_used, answer, rotate_refresh,
}
use jitong_app.Server.Tokens.Stable.{
  Any, IsOther, Differs, differs, IsRevoked-IsStable, IsSpent-IsStable,
}
use jitong_app.Server.Tokens.Runs.{Event, Draws, run, run-P}
use jitong_app.Server.Tokens.Fresh.{rotate_refresh_lem, c_str-token_hash, c_str-c_str, statement}

module _ (digest : Bytes → Bytes) (begin : Results → Bytes) where
  pub rotated-IsSpent :
      (e : Env) (token device request : Bytes) (p : TokenPair) (s : Service)
      → Apart s.db.sessions
      → find request (sweep e.now s.refresh_results) ≡ none
      → (rotate_refresh digest begin e token device request s).1 ≡ rotated p
      → Differs digest (token_hash digest token) p.refresh_token
      → IsSpent
          (token_hash digest token)
          (c_str p.family_id)
          (rotate_refresh digest begin e token device request s).0.db
  rotated-IsSpent e token device request p s u n h d =
      let hash = token_hash digest token in
      let r = rotate_refresh_lem digest begin e hash device request token p s refl n h in
      let spent =
        rotate_refresh_token-IsSpent_new e.sqlite r.old hash (token_hash digest p.access_token)
          (token_hash digest p.refresh_token) p.access_expires_at p.refresh_expires_at s.db u
          (rw (c_str-token_hash digest token) (differs digest hash p.refresh_token d)) r.stored in
      let same : (rotate_refresh digest begin e token device request s).0.db
          ≡ (statement digest begin e hash device request r.old p s.db).0 =
        ap (λ (x : Service). x.db) r.after in
      let family : p.family_id ≡ r.old.family_id = ap (λ (x : TokenPair). x.family_id) r.pair in
      rw (same, family) (rw (c_str-token_hash digest token) at spent)

  -- A spent token with a request id that has no result: its family is revoked.
  spent_refused :
      (e : Env) (token device request family : Bytes) (s : Service)
      → IsSpent (token_hash digest token) family s.db
      → find request (sweep e.now s.refresh_results) ≡ none
      → is_empty token ≡ false
      → is_empty device ≡ false
      → is_empty request ≡ false
      → is_empty family ≡ false
      → e.sqlite.finds_used ≡ true
      → rotate_refresh digest begin e token device request s ≡ (
        record {
          db = (revoke_token_family e.sqlite family s.db).0;
          refresh_results = sweep e.now s.refresh_results;
        },
        refused (positive (revoke_token_family e.sqlite family s.db).1),
      )
  unfolding rotate_refresh answer refuse_used find_by_refresh_hash was_refresh_token_used
  spent_refused e token device request family s h n a b c f u =
      let spent : IsSpent (c_str (token_hash digest token)) family s.db =
        rw (c_str-token_hash digest token) h in
      ground (arith, spent.used, spent.unused)

  -- A refresh token was rotated into the pair `p`, with a request id that had no result. Calls
  -- follow, none of which draws a refresh token with the hash of the old one, nor did the
  -- rotation. Then the old token comes again, with a request id that has no result: the call is
  -- refused, and every session of the family of `p` is revoked. No two rows share a hash or a
  -- session id, the family is not the empty string, and sqlite runs the query of the history and
  -- the update.
  pub reuse_revokes :
      (e e' : Env) (token device device' request request' : Bytes) (p : TokenPair) (xs : List Event)
      (s : Service)
      → let after = run digest begin xs (rotate_refresh digest begin e token device request s).0 in
        let again = rotate_refresh digest begin e' token device' request' after in
        Apart s.db.sessions
        → find request (sweep e.now s.refresh_results) ≡ none
        → (rotate_refresh digest begin e token device request s).1 ≡ rotated p
        → Differs digest (token_hash digest token) p.refresh_token
        → All (Draws Any (Differs digest (token_hash digest token))) xs
        → find request' (sweep e'.now after.refresh_results) ≡ none
        → is_empty token ≡ false
        → is_empty device' ≡ false
        → is_empty request' ≡ false
        → is_empty (c_str p.family_id) ≡ false
        → e'.sqlite.finds_used ≡ true
        → e'.sqlite.prepares_revoke ≡ true
        → e'.sqlite.runs_revoke ≡ true
        → (again.1
            ≡ refused (positive (revoke_token_family e'.sqlite (c_str p.family_id) after.db).1))
          × IsRevoked (c_str p.family_id) again.0.db.sessions
  reuse_revokes e e' token device device' request request' p xs s u n h d k n' a b c f q1 q2 q3 =
      let hash = token_hash digest token in
      let family = c_str p.family_id in
      let after = run digest begin xs (rotate_refresh digest begin e token device request s).0 in
      let spent =
        run-P digest begin Any (Differs digest hash) (IsSpent hash family)
          (IsSpent-IsStable digest hash family) xs
          (rotate_refresh digest begin e token device request s).0 k
          (rotated-IsSpent e token device request p s u n h d) in
      let same = spent_refused e' token device' request' family after spent n' a b c f q1 in
      let revoked : IsRevoked (c_str (c_str p.family_id))
          (revoke_token_family e'.sqlite family after.db).0.sessions =
        revoke_token_family_lem e'.sqlite family after.db q2 q3 in
      let once : IsRevoked family (revoke_token_family e'.sqlite family after.db).0.sessions =
        rw (c_str-c_str p.family_id) at revoked in
      (
        ap (λ (x : Service × Rotated). x.1) same,
        subst (λ (x : Service × Rotated). IsRevoked family x.0.db.sessions) (sym same) once,
      )

  -- While the sessions of a family are all revoked, no access token of it is accepted, whatever
  -- calls are made, none of which issues a session of that family: where the query finds a row of
  -- the family by the token's hash, validate_access refuses.
  pub revoked_family_refused :
      (e : Env) (family token sid device : Bytes) (r : AuthSession) (xs : List Event) (s : Service)
      → IsRevoked family s.db.sessions
      → All (Draws (IsOther digest family) Any) xs
      → find_by_access_hash e.sqlite (token_hash digest token) (run digest begin xs s).db ≡ some r
      → r.family_id ≡ family
      → validate_access digest e token sid device (run digest begin xs s) ≡ none
  unfolding validate_access find_by_access_hash
  revoked_family_refused e family token sid device r xs s h k f q =
      let after = run digest begin xs s in
      let revoked =
        run-P digest begin (IsOther digest family) Any (λ d. IsRevoked family d.sessions)
          (IsRevoked-IsStable digest family) xs s k h in
      let dead =
        select-revoked family (has_access (c_str (token_hash digest token))) after.db.sessions r
          revoked in
      ground (arith, dead)
