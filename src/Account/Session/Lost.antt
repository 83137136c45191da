-- ===== src/Account/Session/Lost.antt =====
-- AccountSession: a login that is asked for after the connection broke and the user gave up.
use jitong_app.Base.{◌≡◌, ◌∙◌, true, false, Bytes, ◌==◌, arith}
use jitong_app.Account.Types.{AccountState}
use jitong_app.Account.Machine.{
  transition_to, cancel_authentication, request_password_login, request_login,
  request_token_login_on_connected, in_flight,
}
use jitong_app.Account.Machine
use jitong_app.Account.Session.{Session, Call}
use jitong_app.Account.Session.Actions.{run_action, run_list, run_depth}
use jitong_app.Account.Session.Intents.{
  start_with_password, cancel, on_connect_result, on_disconnected,
}

broken :
    (x : Call) (s : Session)
    → s.machine.state ≡ AccountState.authenticated
    → (on_disconnected x false s).reauthenticate_after_reconnect ≡ true
unfolding on_disconnected Machine.on_disconnected run_depth run_list run_action
broken x s h = ground arith

given_up :
    (x : Call) (s : Session)
    → ((cancel x s).reauthenticate_after_reconnect ≡ s.reauthenticate_after_reconnect)
      × ((cancel x s).machine.state ≡ AccountState.logged_out)
unfolding cancel cancel_authentication transition_to run_depth run_list run_action
given_up x s = ground arith

started :
    (x : Call) (account password : Bytes) (s : Session)
    → s.machine.state ≡ AccountState.logged_out
    → ((start_with_password x account password s).1 == 0) ≡ false
    → let t = (start_with_password x account password s).0 in
      (t.machine.state ≡ AccountState.authenticating)
      × (t.reauthenticate_after_reconnect ≡ s.reauthenticate_after_reconnect)
unfolding start_with_password request_password_login request_login transition_to run_depth run_list
    run_action
started x account password s h n = ground arith

connected :
    (x : Call) (s : Session)
    → s.machine.state ≡ AccountState.authenticating
    → s.reauthenticate_after_reconnect ≡ true
    → ((on_connect_result x true s).log ≡ s.log)
      × ((on_connect_result x true s).machine.state ≡ AccountState.authenticating)
unfolding on_connect_result request_token_login_on_connected run_depth run_list
connected x s h r = ground arith

-- An authenticated session loses its connection, the user cancels, and then logs in with a password,
-- which gets an operation id. When the connection is there, nothing is sent: the log does not
-- change, and the machine goes on waiting for the login's answer.
pub login_after_cancel_lost :
    (x1 x2 x3 x4 : Call) (account password : Bytes) (s : Session)
    → let given = cancel x2 (on_disconnected x1 false s) in
      let asked = start_with_password x3 account password given in
      let after = on_connect_result x4 true asked.0 in
      s.machine.state ≡ AccountState.authenticated
      → (asked.1 == 0) ≡ false
      → (after.log ≡ asked.0.log) × (after.machine.state ≡ AccountState.authenticating)
login_after_cancel_lost x1 x2 x3 x4 account password s h n =
    let a = broken x1 s h in
    let b = given_up x2 (on_disconnected x1 false s) in
    let c = started x3 account password (cancel x2 (on_disconnected x1 false s)) b.1 n in
    connected x4 _ c.0 (c.1 ∙ b.0 ∙ a)
