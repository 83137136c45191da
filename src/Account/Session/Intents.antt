-- ===== src/Account/Session/Intents.antt =====
-- AccountSession: the user's intents and the transport's callbacks, each one step.
use jitong_app.Base.{
  ℕ, Bool, true, false, not, ◌&&◌, ◌||◌, List, [], ◌∷◌, Bytes, ◌==◌, if◌then◌else◌,
}
use jitong_app.Account.Types.{AccountState, AuthError, same_state}
use jitong_app.Account.State.{Action, Machine}
use jitong_app.Account.Machine
use jitong_app.Account.Machine.{
  request_password_login, request_token_login, request_refresh, request_refresh_for_login,
  request_token_login_on_connected, request_logout, cancel_authentication, on_connected,
  on_auth_succeeded, on_auth_failed,
}
use jitong_app.Account.TokenManager.{
  TokenSession, TokenManager, load_from_store, access_usable, refresh_expired, revoke_family, adopt,
  access_needs_refresh, suspend_refresh, cancel_refresh,
}
use jitong_app.Account.ReconnectPolicy.{reset}
use jitong_app.Account.Session.{Session, Call, AuthResult, connects, write}
use jitong_app.Account.Session.Actions.{
  follow, generation_of, log_in_again, refresh_result, logout_result, run_actions,
}

abbrev is_none : List Action → Bool
is_none [] = true
is_none (a ∷ actions) = false

-- `m_generation = m_sm.generation()` and the actions.
abbrev pub follow_new : Call → Session → Machine × List Action → Session
follow_new x s (m, actions) =
    run_actions x actions (record s { machine = m; generation = m.generation })

unfoldable pub start_with_password : Call → Bytes → Bytes → Session → Session × ℕ
start_with_password x account password s =
    let r = request_password_login account s.machine in
    let t : Session = record s { machine = r.0 } in
    if r.2 == 0 || is_none r.1 then (run_actions x r.1 t, r.2) else (
      run_actions x r.1 (record t {
        account = account;
        pending_password = password;
        token_login_after_refresh = false;
        reconnect = reset s.reconnect;
      }),
      r.2,
    )

-- startWithSavedToken once the credentials are loaded.
unfoldable pub start_loaded : Call → Bytes → Session → Session × ℕ
start_loaded x account s =
    let usable = access_usable x.now s.tokens in
    let t : Session = record s {
      account = account;
      reconnect = reset s.reconnect;
      token_login_after_refresh = not usable;
    } in
    let r =
      if usable
      then request_token_login account s.machine
      else request_refresh_for_login account s.machine in
    if not usable && refresh_expired x.now s.tokens
    then (record s { tokens = (revoke_family x.accepts s.tokens).0 }, 0)
    else (run_actions x r.1 (record t { machine = r.0 }), r.2)

unfoldable pub start_with_saved_token : Call → Bytes → Session → Session × ℕ
unfolding start_loaded
start_with_saved_token x account s =
    let loaded = load_from_store x.accepts account x.now s.tokens in
    let t : Session = record s { tokens = loaded.0 } in
    if loaded.1 then start_loaded x account t else (t, 0)

unfoldable pub logout : Call → Bool → Session → Session
logout x all_devices s =
    let r = request_logout s.machine in
    follow_new x (record s { logout_all_devices = all_devices }) (r.0, r.1)

unfoldable pub cancel : Call → Session → Session
cancel x s =
    follow_new x
      (record s {
        pending_password = [];
        token_login_after_refresh = false;
        tokens = (cancel_refresh x.accepts s.tokens).0;
      })
      (cancel_authentication s.machine)

-- tick, with maybeAutoRefresh.
unfoldable pub tick : Call → Session → Session
tick x s =
    let r = request_refresh s.machine in
    if not (same_state s.machine.state AccountState.authenticated)
    then s
    else if access_needs_refresh x.now s.tokens && not s.tokens.refresh_in_flight
    then follow_new x s (r.0, r.1)
    else s

unfoldable pub on_connect_result : Call → Bool → Session → Session
on_connect_result x false s = follow (run_actions x) s (Machine.on_disconnected false s.machine)
on_connect_result x true s =
    let t : Session = record s { reconnect = reset s.reconnect } in
    let again : Session = record t { reauthenticate_after_reconnect = false } in
    if s.reauthenticate_after_reconnect
    then log_in_again (run_actions x) again
    else follow (run_actions x) t (on_connected s.machine)

unfoldable pub on_disconnected : Call → Bool → Session → Session
on_disconnected x intentional s =
    let t : Session =
      if same_state s.machine.state AccountState.refreshing
      then record s { tokens = suspend_refresh s.tokens }
      else if not intentional && same_state s.machine.state AccountState.authenticated
      then record s { reauthenticate_after_reconnect = true }
      else s in
    follow (run_actions x) t (Machine.on_disconnected intentional s.machine)

-- mapLoginError: LOGIN_PASSERROR is 2 and LOGIN_NOTEXIT 1.
unfoldable pub map_login_error : ℕ → AuthError
map_login_error result =
    if result == 2 || result == 1 then AuthError.invalid_credentials else AuthError.server_rejected

abbrev pub session_of : Bytes → AuthResult → TokenSession
session_of account r = record {
  access_token = r.access_token;
  refresh_token = r.refresh_token;
  access_expire_at = r.access_expire_at;
  refresh_expire_at = r.refresh_expire_at;
  session_id = r.session_id;
  account = account;
}

abbrev pub logged_in : Call → ℕ → ℕ → Session → TokenManager × Bool → Session
logged_in x generation user s (tokens, stored) =
    let t : Session = record s { tokens = tokens } in
    if stored
    then follow (run_actions x) t (on_auth_succeeded generation user s.machine)
    else follow (run_actions x) t (on_auth_failed generation AuthError.internal s.machine)

unfoldable pub on_login_result : Call → ℕ → AuthResult → ℕ → Session → Session
unfolding map_login_error
on_login_result x result r requested s =
    let generation = generation_of requested s in
    if not (generation == s.machine.generation)
    then s
    else if result == 0
    then logged_in x generation r.user_id s (adopt x.accepts (session_of s.account r) s.tokens)
    else follow (run_actions x) s (on_auth_failed generation (map_login_error result) s.machine)

unfoldable pub on_token_login_result : Call → ℕ → ℕ → ℕ → Session → Session
on_token_login_result x result user requested s =
    let generation = generation_of requested s in
    if not (generation == s.machine.generation)
    then s
    else if result == 0
    then follow (run_actions x) s (on_auth_succeeded generation user s.machine)
    else follow (run_actions x) s (on_auth_failed generation AuthError.token_expired s.machine)

unfoldable pub on_refresh_result : Call → ℕ → AuthResult → ℕ → Session → Session
unfolding refresh_result
on_refresh_result x result r requested s = refresh_result (run_actions x) x result r requested s

unfoldable pub on_logout_result : Call → ℕ → Session → Session
unfolding logout_result
on_logout_result x requested s = logout_result (run_actions x) x requested s

unfoldable pub on_kicked : Call → Session → Session
on_kicked x s =
    follow (run_actions x) (record s { tokens = (revoke_family x.accepts s.tokens).0 })
      (Machine.on_kicked AuthError.kicked_by_other_device s.machine)

unfoldable pub on_reconnect_fired : Session → Session
on_reconnect_fired s = if s.reconnect.enabled then write connects s else s
