-- ===== src/Account/Session/Actions.antt =====
-- AccountSession::runActions. An action that cannot be sent runs the actions of its failure at once,
-- one level deeper: `depth` bounds the levels, and two are enough.

use jitong_app.Base.{
  ℕ, zero, suc, Bool, false, not, ◌&&◌, Option, none, some, List, [], ◌∷◌, is_empty, ◌==◌,
  if◌then◌else◌,
}
use jitong_app.Transport.Messages.{TokenLoginRq, RefreshTokenRq, LogoutRq}
use jitong_app.Account.Types.{AuthError, AccountEventType, AccountEvent, ConnectionState}
use jitong_app.Account.State.{
  Action, connect, send_password_login, send_token_login, send_refresh, send_logout, disconnect,
  schedule_reconnect, cancel_reconnect, emit_event, reject_operation, Machine,
}
use jitong_app.Account.Machine.{
  on_auth_failed, on_refresh_failed, on_refresh_succeeded, on_logout_completed,
  request_token_login_on_connected,
}
use jitong_app.Account.TokenManager.{TokenManager, begin_refresh, revoke_family, rotate}
use jitong_app.Account.ReconnectPolicy.{next_delay_ms, disable}
use jitong_app.Account.DeviceProof.{build_token_login, build_refresh, build_logout}
use jitong_app.Account.Session.{
  Session, Call, AuthResult, no_result, connects, disconnects, sends_password_login,
  sends_token_login, sends_refresh, sends_logout, schedules_reconnect, cancels_reconnect, emits,
  write,
}

abbrev pub Runner : Type 0
Runner = List Action → Session → Session

-- Take the machine's answer and run its actions.
abbrev pub follow : Runner → Session → Machine × List Action → Session
follow run s (m, actions) = run actions (record s { machine = m })

-- A result without a generation is one of the last that was noted.
abbrev pub generation_of : ℕ → Session → ℕ
generation_of generation s = if generation == 0 then s.generation else generation

abbrev pub log_in_again : Runner → Session → Session
log_in_again run s =
    let r = request_token_login_on_connected s.machine in
    run r.1 (record s { machine = r.0; generation = r.0.generation })

-- onRefreshResult with a success whose generation is the current one: the new tokens are stored, and
-- a cold start goes on to log in.
abbrev pub refresh_succeeded : Runner → ℕ → Session → TokenManager × Bool → Session
refresh_succeeded run generation s (tokens, stored) =
    let t : Session = record s { tokens = tokens } in
    if not stored
    then follow run t (on_refresh_failed generation AuthError.internal s.machine)
    else let after =
        follow run (record t { token_login_after_refresh = false })
          (on_refresh_succeeded generation s.machine) in
      if s.token_login_after_refresh then log_in_again run after else after

abbrev pub refresh_refused : Runner → Call → ℕ → Session → Session
refresh_refused run x generation s =
    follow run (record s { tokens = (revoke_family x.accepts s.tokens).0 })
      (on_refresh_failed generation AuthError.token_revoked s.machine)

-- onRefreshResult
unfoldable pub refresh_result : Runner → Call → ℕ → AuthResult → ℕ → Session → Session
refresh_result run x result r requested s =
    let generation = generation_of requested s in
    if not (generation == s.machine.generation)
    then s
    else if result == 0
    then refresh_succeeded run generation s (
        rotate x.accepts r.access_token r.refresh_token r.access_expire_at r.refresh_expire_at
          r.session_id s.tokens)
    else refresh_refused run x generation s

-- onLogoutResult
unfoldable pub logout_result : Runner → Call → ℕ → Session → Session
logout_result run x requested s =
    if not (requested == 0) && not (requested == s.machine.generation)
    then s
    else follow run (record s { tokens = (revoke_family x.accepts s.tokens).0 })
        (on_logout_completed s.machine)

abbrev pub send_token : Runner → Session → Option TokenLoginRq → Session
send_token run s (some rq) = write (sends_token_login rq s.machine.generation) s
send_token run s none =
    follow run s (on_auth_failed s.generation AuthError.device_proof_failed s.machine)

abbrev pub send_rotation : Runner → Call → Session → Option RefreshTokenRq → Session
send_rotation run x s (some rq) = write (sends_refresh rq s.machine.generation) s
send_rotation run x s none = refresh_result run x 1 no_result s.machine.generation s

abbrev pub send_leaving : Runner → Call → Session → Option LogoutRq → Session
send_leaving run x s (some rq) = write (sends_logout rq s.machine.generation) s
send_leaving run x s none = logout_result run x s.machine.generation s

unfoldable pub start_refresh : Runner → Call → Session → Session
unfolding refresh_result
start_refresh run x s =
    let begun = begin_refresh x.accepts x.now s.tokens in
    let t : Session = record s { tokens = begun.0 } in
    if is_empty begun.1
    then follow run t (on_refresh_failed s.generation AuthError.internal s.machine)
    else send_rotation run x t
        (build_refresh s.proof x.app_session_id begun.0.session.refresh_token begun.1)

abbrev pub rejection : AuthError → Session → AccountEvent
rejection error s = record {
  type = AccountEventType.login_failed;
  operation_id = 0;
  account_state = s.machine.state;
  connection_state = ConnectionState.disconnected;
  error = error;
  user_id = 0;
  message = [];
}

-- One action; `run` runs the actions of a failure.
unfoldable pub run_action : Runner → Call → Action → Session → Session
unfolding start_refresh logout_result
run_action run x (connect op) s = write connects (record s { generation = s.machine.generation })
run_action run x (send_password_login op) s =
    record (write (sends_password_login s.account s.pending_password s.machine.generation) s) {
      pending_password = [];
    }
run_action run x (send_token_login op) s = send_token run s (
    build_token_login s.proof x.app_session_id s.tokens.session.access_token
      s.tokens.session.session_id)
run_action run x (send_refresh op) s = start_refresh run x s
run_action run x (send_logout op) s =
    send_leaving run x s
      (build_logout s.proof x.app_session_id s.tokens.session.refresh_token s.logout_all_devices)
run_action run x disconnect s = write disconnects s
run_action run x (schedule_reconnect op) s =
    let r = next_delay_ms x.jitter s.reconnect in
    write (schedules_reconnect r.1) (record s { reconnect = r.0 })
run_action run x cancel_reconnect s =
    write cancels_reconnect (record s { reconnect = disable s.reconnect })
run_action run x (emit_event e) s = write (emits e) s
run_action run x (reject_operation error) s = write (emits (rejection error s)) s

unfoldable pub run_list : Runner → Call → List Action → Session → Session
unfolding run_action
run_list run x [] s = s
run_list run x (a ∷ actions) s = run_list run x actions (run_action run x a s)

unfoldable pub run_depth : ℕ → Call → List Action → Session → Session
unfolding run_list
run_depth zero x actions s = s
run_depth (suc depth) x actions s = run_list (run_depth depth x) x actions s

abbrev pub run_actions : Call → List Action → Session → Session
run_actions x actions s = run_depth 2 x actions s
