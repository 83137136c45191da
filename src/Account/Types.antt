-- ===== src/Account/Types.antt =====
-- client_core/include/client_core/AccountTypes.h: the states, errors and events of the account.
use jitong_app.Base.{ℕ, Bool, true, false, Bytes}

pub data AccountState : Type 0 where
  logged_out authenticating authenticated refreshing logged_out_kicked : AccountState

pub data ConnectionState : Type 0 where
  disconnected connecting connected reconnecting : ConnectionState

pub data AuthError : Type 0 where
  none network_unreachable invalid_credentials token_expired token_revoked : AuthError
  device_proof_failed kicked_by_other_device operation_in_progress : AuthError
  operation_superseded server_rejected internal : AuthError

pub data AccountEventType : Type 0 where
  state_changed connection_changed login_succeeded login_failed : AccountEventType
  refresh_succeeded refresh_failed kicked logged_out : AccountEventType

pub record AccountEvent : Type 0 where
  pub type : AccountEventType
  pub operation_id : ℕ
  pub account_state : AccountState
  pub connection_state : ConnectionState
  pub error : AuthError
  pub user_id : ℕ
  pub message : Bytes

-- `==` on the states.
abbrev pub same_state : AccountState → AccountState → Bool
same_state AccountState.logged_out AccountState.logged_out = true
same_state AccountState.authenticating AccountState.authenticating = true
same_state AccountState.authenticated AccountState.authenticated = true
same_state AccountState.refreshing AccountState.refreshing = true
same_state AccountState.logged_out_kicked AccountState.logged_out_kicked = true
same_state _ _ = false

-- The two errors of `onRefreshFailed` that end the session.
abbrev pub ends_session : AuthError → Bool
ends_session AuthError.token_revoked = true
ends_session AuthError.token_expired = true
ends_session _ = false
