-- ===== src/Account/Machine.antt =====
-- client_core/src/account/AuthStateMachine.cpp. The actions that a call appends to `out` are the
-- second part of its result; the returned operation id of a request is the third.
pub mod Run
pub mod Stale
pub mod SingleFlight
pub mod Reconnect
pub mod Outcomes
use jitong_app.Base.{
  ℕ, ◌+◌, ◌%◌, ◌^◌, Bool, true, false, not, ◌&&◌, ◌||◌, List, [], ◌∷◌, ◌++◌, Bytes, bytes_eq, ◌==◌,
  if◌then◌else◌,
}
use jitong_app.Account.State.{
  AuthMethod, no_method, password, access_token, same_method, Action, connect, send_password_login,
  send_token_login, send_refresh, send_logout, disconnect, schedule_reconnect, cancel_reconnect,
  emit_event, reject_operation, Machine, u32, u64, initial,
}
use jitong_app.Account.Types.{
  AccountState, ConnectionState, AuthError, AccountEventType, AccountEvent, same_state,
  ends_session,
}

-- `emit`, with `makeEvent`.
abbrev pub event_of : AccountEventType → AuthError → ℕ → Machine → Action
event_of type error user_id m = emit_event (record {
  type = type;
  operation_id = m.operation_id;
  account_state = m.state;
  connection_state = ConnectionState.disconnected;
  error = error;
  user_id = user_id;
  message = [];
})

unfoldable pub transition_to : AccountState → Machine → Machine × List Action
transition_to next m =
    if same_state next m.state
    then (m, [])
    else let m' : Machine = record m { state = next } in
      (m', event_of AccountEventType.state_changed AuthError.none 0 m' ∷ [])

abbrev pub in_flight : Machine → Bool
in_flight m =
    same_state m.state AccountState.authenticating || same_state m.state AccountState.refreshing

-- `m_operationId = m_nextOperationId++; ++m_generation;`
abbrev pub new_operation : Machine → Machine
new_operation m = record m {
  operation_id = m.next_operation_id;
  next_operation_id = u64 (m.next_operation_id + 1);
  generation = u32 (m.generation + 1);
}

abbrev rejected : Machine → Machine × List Action × ℕ
rejected m = (m, reject_operation AuthError.operation_in_progress ∷ [], 0)

unfoldable pub request_login : Bytes → AuthMethod → Machine → Machine × List Action × ℕ
unfolding transition_to
request_login account method m =
    if in_flight m
    then if same_state m.state AccountState.authenticating
        && bytes_eq account m.account
        && same_method method m.auth_method
      then (m, [], m.operation_id)
      else rejected m
    else if same_state m.state AccountState.authenticated
        && bytes_eq account m.account
        && same_method method access_token
    then (m, [], m.operation_id)
    else let m1 : Machine = record (new_operation m) {
      account = account;
      auth_method = method;
      auto_reconnect_allowed = true;
    } in
      let (m2, acts) = transition_to AccountState.authenticating m1 in
      (m2, acts ++ connect m2.operation_id ∷ [], m2.operation_id)

unfoldable pub request_password_login : Bytes → Machine → Machine × List Action × ℕ
unfolding request_login
request_password_login account m = request_login account password m

unfoldable pub request_token_login : Bytes → Machine → Machine × List Action × ℕ
unfolding request_login
request_token_login account m = request_login account access_token m

unfoldable pub request_refresh : Machine → Machine × List Action × ℕ
unfolding transition_to
request_refresh m =
    if same_state m.state AccountState.refreshing
    then (m, [], m.operation_id)
    else if not (same_state m.state AccountState.authenticated)
    then rejected m
    else let m1 : Machine = record (new_operation m) { state_before_refresh = m.state } in
      let (m2, acts) = transition_to AccountState.refreshing m1 in
      (m2, acts ++ send_refresh m2.operation_id ∷ [], m2.operation_id)

unfoldable pub request_refresh_for_login : Bytes → Machine → Machine × List Action × ℕ
unfolding transition_to
request_refresh_for_login account m =
    if in_flight m
    then rejected m
    else let m1 : Machine = record (new_operation m) {
      account = account;
      auth_method = access_token;
      auto_reconnect_allowed = true;
    } in
      let (m2, acts) = transition_to AccountState.refreshing m1 in
      (m2, acts ++ connect m2.operation_id ∷ [], m2.operation_id)

unfoldable pub request_token_login_on_connected : Machine → Machine × List Action × ℕ
unfolding transition_to
request_token_login_on_connected m =
    if not (same_state m.state AccountState.authenticated)
    then (m, [], 0)
    else let m1 : Machine = record (new_operation m) { auth_method = access_token } in
      let (m2, acts) = transition_to AccountState.authenticating m1 in
      (m2, acts ++ send_token_login m2.operation_id ∷ [], m2.operation_id)

unfoldable pub request_logout : Machine → Machine × List Action × ℕ
request_logout m =
    let m1 : Machine = record (new_operation m) { auto_reconnect_allowed = false } in
    (m1, cancel_reconnect ∷ send_logout m1.operation_id ∷ [], m1.operation_id)

unfoldable pub cancel_authentication : Machine → Machine × List Action
unfolding transition_to
cancel_authentication m =
    let m1 : Machine = record m {
      generation = u32 (m.generation + 1);
      operation_id = 0;
      auth_method = no_method;
      auto_reconnect_allowed = false;
    } in
    let (m2, acts) = transition_to AccountState.logged_out m1 in
    (m2, cancel_reconnect ∷ acts ++ disconnect ∷ [])

unfoldable pub on_connected : Machine → Machine × List Action
on_connected m =
    if same_state m.state AccountState.authenticating
    then (
      m,
      (if same_method m.auth_method access_token
            then send_token_login m.operation_id
            else send_password_login m.operation_id)
          ∷ [],
    )
    else if same_state m.state AccountState.refreshing
    then (m, send_refresh m.operation_id ∷ [])
    else (m, [])

unfoldable pub on_disconnected : Bool → Machine → Machine × List Action
unfolding transition_to
on_disconnected intentional m =
    if intentional
    then (m, [])
    else if not m.auto_reconnect_allowed || same_state m.state AccountState.logged_out_kicked
    then (m, [])
    else if same_state m.state AccountState.authenticated
        || same_state m.state AccountState.refreshing
    then (m, schedule_reconnect m.operation_id ∷ [])
    else if same_state m.state AccountState.authenticating
    then (let (m1, acts) = transition_to AccountState.logged_out m in
        (m1, event_of AccountEventType.login_failed AuthError.network_unreachable 0 m ∷ acts))
    else (m, [])

-- `isStaleGeneration`
abbrev pub is_stale : ℕ → Machine → Bool
is_stale generation m = not (generation == m.generation)

unfoldable pub on_auth_succeeded : ℕ → ℕ → Machine → Machine × List Action
unfolding transition_to
on_auth_succeeded generation user_id m =
    if is_stale generation m
    then (m, [])
    else if not (same_state m.state AccountState.authenticating)
    then (m, [])
    else let (m1, acts) = transition_to AccountState.authenticated m in
      (m1, acts ++ event_of AccountEventType.login_succeeded AuthError.none user_id m1 ∷ [])

unfoldable pub on_auth_failed : ℕ → AuthError → Machine → Machine × List Action
unfolding transition_to
on_auth_failed generation error m =
    if is_stale generation m
    then (m, [])
    else if not (same_state m.state AccountState.authenticating)
    then (m, [])
    else let (m1, acts) = transition_to AccountState.logged_out m in
      (m1, event_of AccountEventType.login_failed error 0 m ∷ acts ++ disconnect ∷ [])

unfoldable pub on_refresh_succeeded : ℕ → Machine → Machine × List Action
unfolding transition_to
on_refresh_succeeded generation m =
    if is_stale generation m
    then (m, [])
    else if not (same_state m.state AccountState.refreshing)
    then (m, [])
    else let (m1, acts) = transition_to AccountState.authenticated m in
      (m1, acts ++ event_of AccountEventType.refresh_succeeded AuthError.none 0 m1 ∷ [])

unfoldable pub on_refresh_failed : ℕ → AuthError → Machine → Machine × List Action
unfolding transition_to
on_refresh_failed generation error m =
    if is_stale generation m
    then (m, [])
    else if not (same_state m.state AccountState.refreshing)
    then (m, [])
    else if ends_session error
    then (let m1 : Machine = record m { auto_reconnect_allowed = false } in
        let (m2, acts) = transition_to AccountState.logged_out_kicked m1 in
        (
          m2,
          event_of AccountEventType.refresh_failed error 0 m ∷ acts
              ++ event_of AccountEventType.kicked error 0 m2 ∷ [],
        ))
    else let (m1, acts) = transition_to AccountState.authenticated m in
      (m1, event_of AccountEventType.refresh_failed error 0 m ∷ acts)

unfoldable pub on_kicked : AuthError → Machine → Machine × List Action
unfolding transition_to
on_kicked reason m =
    let m1 : Machine = record m { auto_reconnect_allowed = false } in
    let (m2, acts) = transition_to AccountState.logged_out_kicked m1 in
    (m2, cancel_reconnect ∷ acts ++ event_of AccountEventType.kicked reason 0 m2 ∷ disconnect ∷ [])

unfoldable pub on_logout_completed : Machine → Machine × List Action
unfolding transition_to
on_logout_completed m =
    let m1 : Machine = record m {
      auto_reconnect_allowed = false;
      account = [];
      auth_method = no_method;
    } in
    let (m2, acts) = transition_to AccountState.logged_out m1 in
    (
      record m2 { operation_id = 0 },
      acts ++ event_of AccountEventType.logged_out AuthError.none 0 m2 ∷ [],
    )
