-- ===== src/Server/Auth/Refreshing.antt =====
-- AuthHandler::onTokenRefresh with a refresh token that was rotated away.
use mathlib.Core.Path.{subst}
use jitong_app.Base.{◌≡◌, sym, none, some, List, Bytes, arith, All}
use jitong_app.Base.Dict.{find, bytes_Eq}
use jitong_app.Transport.Messages.{RefreshTokenRq}
use jitong_app.Server.AuthTable.{c_str, find_by_refresh_hash}
use jitong_app.Server.AuthTable.Unique.{Apart}
use jitong_app.Server.AuthTable.History.{IsSpent}
use jitong_app.Server.Tokens.{TokenPair, Service, token_hash}
use jitong_app.Server.Tokens.Fresh.{c_str-token_hash}
use jitong_app.Server.Tokens.Runs.{Event, Draws, run, run-P}
use jitong_app.Server.Tokens.Stable.{Any, Differs, IsSpent-IsStable}
use jitong_app.Server.Tokens.Rotate.{rotated, sweep, rotate_refresh}
use jitong_app.Server.Tokens.Reuse.{rotated-IsSpent}
use jitong_app.Server.Auth.{refresh_rs, Connection, Server, Outside, deliver}
use jitong_app.Server.Auth.Sessions.{refresh_failed, on_token_refresh}

module _ {Chat : Type 0} where
  -- A token whose hash no session has as its refresh hash does not get past the device proof.
  on_token_refresh-IsSpent :
      (o : Outside Chat) (rq : RefreshTokenRq) (c : Connection) (s : Server Chat) (family : Bytes)
      → IsSpent (token_hash o.digest rq.refresh_token) family s.tokens.db
      → on_token_refresh o (some rq) c s ≡ (deliver c.id (refresh_rs refresh_failed) s, c)
  unfolding on_token_refresh find_by_refresh_hash
  on_token_refresh-IsSpent o rq c s family h =
      let spent : IsSpent (c_str (token_hash o.digest rq.refresh_token)) family s.tokens.db =
        rw (c_str-token_hash o.digest rq.refresh_token) h in
      ground (arith, spent.unused)

  -- The refresh token of the request was rotated, by a request id that had no result, and calls of
  -- the token service followed, none of which draws a refresh token with its hash, nor did the
  -- rotation. Then the handler answers the request with a failure and changes nothing else: a
  -- request that is repeated with its request id does not get its pair again, and the family of a
  -- token that is used again is not revoked. No two rows share a hash or a session id.
  pub spent_refresh_dropped :
      (o o' : Outside Chat) (device request : Bytes) (rq : RefreshTokenRq) (p : TokenPair)
      (xs : List Event) (c : Connection) (before : Service) (s : Server Chat)
      → let token = rq.refresh_token in
        let digest = o.digest in
        let first = rotate_refresh digest o.begin o.env token device request before in
        Apart before.db.sessions
        → find request (sweep o.env.now before.refresh_results) ≡ none
        → first.1 ≡ rotated p
        → Differs digest (token_hash digest token) p.refresh_token
        → All (Draws Any (Differs digest (token_hash digest token))) xs
        → s.tokens ≡ run digest o.begin xs first.0
        → o'.digest ≡ digest
        → on_token_refresh o' (some rq) c s ≡ (deliver c.id (refresh_rs refresh_failed) s, c)
  spent_refresh_dropped o o' device request rq p xs c before s u n h d k after same =
      let token = rq.refresh_token in
      let digest = o.digest in
      let hash = token_hash digest token in
      let family = c_str p.family_id in
      let first = rotate_refresh digest o.begin o.env token device request before in
      let spent =
        run-P digest o.begin Any (Differs digest hash) (IsSpent hash family)
          (IsSpent-IsStable digest hash family) xs first.0 k
          (rotated-IsSpent digest o.begin o.env token device request p before u n h d) in
      let now : IsSpent hash family s.tokens.db = rw after spent in
      on_token_refresh-IsSpent o' rq c s family (
        subst (λ (f : Bytes → Bytes). IsSpent (token_hash f token) family s.tokens.db) (sym same)
          now)
