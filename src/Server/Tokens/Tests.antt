-- ===== src/Server/Tokens/Tests.antt =====
-- Runs of TokenService: a login, a refresh, the same refresh again, and a stolen refresh token.
use jitong_app.Base.{
  ◌≤◌, ◌≡◌, ◌≢◌, refl, true, none, some, List, [], ◌∷◌, codes, bytes_eq, bytes_eq_refl, length,
  arith,
}
use jitong_app.Base.Dict.{find, put, HasUniqueKeys, bytes_Eq}
use jitong_app.Server.AuthTable
use jitong_app.Server.AuthTable.{
  AuthSession, Db, Sqlite, c_str, select, update, create_auth_session, insert_session,
  find_by_access_hash, find_by_refresh_hash, rotate_refresh_token, was_refresh_token_used,
  revoke_token_family, revoke_where,
}
use jitong_app.Server.AuthTable.Revoked.{IsRevoked}
use jitong_app.Server.Tokens.{
  Results, issued, to_hex, random_token, token_hash, new_pair, save, issue, validate_access,
  revoke_session,
}
use jitong_app.Server.Tokens.Rotate.{
  rotated, refused, sweep, refuse_used, remember, store_next, rotate_found, answer, rotate_refresh,
}
use jitong_app.Server.Tokens.Samples.{
  env, digest, begin, empty, phone, at_login, first, at_refresh, second, old_row, between, again,
}
use jitong_app.Server.Tokens.Runs.{Event, rotates, revokes_user, step, run}
use jitong_app.Server.Tokens.Reuse.{reuse_revokes, revoked_family_refused}
use jitong_app.Server.Tokens.Cache.{run-results}
use jitong_app.Server.Tokens.Repeat.{same_request_again}
use jitong_app.Server.Tokens.Grants.{issue-validate_access, rotate_refresh-validate_access}

logs_in : (at_login.1 ≡ issued first) × (first.refresh_token ≡ codes "13")
unfolding issue new_pair save create_auth_session insert_session random_token to_hex c_str
    token_hash bytes_eq
logs_in = (refl, refl)

refreshes : (at_refresh.1 ≡ rotated second) × (second.access_token ≡ codes "20")
unfolding issue new_pair save create_auth_session insert_session random_token to_hex c_str
    token_hash bytes_eq rotate_refresh sweep answer find find_by_refresh_hash select rotate_found
    store_next rotate_refresh_token update remember put
refreshes = (refl, refl)

issue-validate_access_example :
    validate_access digest (env 1299 0) first.access_token [] phone at_login.0
    ≡ some (record { user_id = 7; session_id = codes "10"; expires_at = 1300 })
unfolding issue new_pair save create_auth_session insert_session random_token to_hex c_str
    token_hash bytes_eq
issue-validate_access_example =
    issue-validate_access digest (env 1000 16) (env 1299 0) 7 phone [] first empty refl refl refl
      refl refl refl (omega arith)

rotate_refresh-validate_access_example :
    validate_access digest (env 1959 0) second.access_token second.session_id phone at_refresh.0
    ≡ some (record { user_id = 7; session_id = codes "10"; expires_at = 1960 })
unfolding issue new_pair save create_auth_session insert_session random_token to_hex c_str
    token_hash bytes_eq rotate_refresh sweep answer find find_by_refresh_hash select rotate_found
    store_next rotate_refresh_token update remember put
rotate_refresh-validate_access_example =
    rotate_refresh-validate_access digest begin (env 1060 32) (env 1959 0) first.refresh_token phone
      (codes "r1") second old_row at_login.0 (refl, tt) refl refl refl refl refl refl (omega arith)

-- The pair is rotated once more in between.
abbrev meanwhile : List Event
meanwhile =
    rotates (env 1080 64) second.refresh_token phone (codes "r2") ∷ revokes_user (env 1090 0) 8 ∷ []

same_request_again_example :
    let later = run digest begin meanwhile at_refresh.0 in
    rotate_refresh digest begin (env 1100 96) first.refresh_token phone (codes "r1") later
    ≡ (record { db = later.db; refresh_results = sweep 1100 later.refresh_results }, rotated second)
unfolding issue new_pair save create_auth_session insert_session random_token to_hex c_str
    token_hash bytes_eq rotate_refresh sweep answer find find_by_refresh_hash select rotate_found
    store_next rotate_refresh_token update remember put
same_request_again_example =
    same_request_again digest begin (env 1060 32) (env 1100 96) first.refresh_token
      first.refresh_token phone phone (codes "r1") second meanwhile
      (run digest begin meanwhile at_refresh.0).db at_login.0 tt refl refl (omega arith, (tt, tt))
      (omega arith) (omega arith) refl refl

reuse_revokes_example : (again.1 ≡ refused (some 7)) × IsRevoked (codes "11") again.0.db.sessions
unfolding issue new_pair save create_auth_session insert_session random_token to_hex c_str
    token_hash bytes_eq rotate_refresh sweep answer find find_by_refresh_hash select rotate_found
    store_next rotate_refresh_token update remember put run step revoke_session
    AuthTable.revoke_session revoke_where revoke_token_family
reuse_revokes_example =
    reuse_revokes digest begin (env 1060 32) (env 1080 96) first.refresh_token phone phone
      (codes "r1") (codes "r2") second between at_login.0 (refl, tt) refl refl (λ e. cc) (tt, tt)
      refl refl refl refl refl refl refl refl

revoked_family_refused_example :
    validate_access digest
      (env 1090 0)
      second.access_token
      []
      phone
      (run digest begin between again.0)
    ≡ none
unfolding issue new_pair save create_auth_session insert_session random_token to_hex c_str
    token_hash bytes_eq rotate_refresh sweep answer find find_by_refresh_hash select rotate_found
    store_next rotate_refresh_token update remember put run step revoke_session refuse_used
    was_refresh_token_used AuthTable.revoke_session revoke_where revoke_token_family
    find_by_access_hash
revoked_family_refused_example =
    revoked_family_refused digest begin (env 1090 0) (codes "11") second.access_token [] phone
      (record old_row {
        access_hash = to_hex (codes "20");
        access_expires_at = 1960;
        refresh_hash = to_hex (codes "21");
        refresh_expires_at = 2593060;
        generation = 2;
        revoked = true;
      })
      between again.0 (refl, tt) (tt, tt) refl refl

begins : (m : Results) → 1 ≤ length m → find (begin m) m ≢ none
unfolding find
begins [] h = absurd (omega arith)
begins (x ∷ m) h = ground (arith, bytes_eq_refl x.0)

run-results_example :
    (length (run digest begin between at_refresh.0).refresh_results ≤ 1024)
    × HasUniqueKeys (run digest begin between at_refresh.0).refresh_results
unfolding issue new_pair save create_auth_session insert_session random_token to_hex c_str
    token_hash bytes_eq rotate_refresh sweep answer find find_by_refresh_hash select rotate_found
    store_next rotate_refresh_token update remember put
run-results_example = run-results digest begin between at_refresh.0 begins (omega arith) (refl, tt)
