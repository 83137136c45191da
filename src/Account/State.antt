-- ===== src/Account/State.antt =====
-- client_core/include/client_core/AuthStateMachine.h: the actions and the fields of the machine.
-- `uint64_t` and `uint32_t` counters wrap around.
use jitong_app.Base.{ℕ, ◌%◌, Bool, true, false, [], Bytes}
use jitong_app.Account.Types.{AccountState, AuthError, AccountEvent}

pub data AuthMethod : Type 0 where
  no_method password access_token : AuthMethod

abbrev pub same_method : AuthMethod → AuthMethod → Bool
same_method no_method no_method = true
same_method password password = true
same_method access_token access_token = true
same_method _ _ = false

-- `Action` with the fields that its type makes valid. (`EmitEvent` has the operation id and the
-- error of its event in the outer fields too.)
pub data Action : Type 0 where
  connect : ℕ → Action
  send_password_login : ℕ → Action
  send_token_login : ℕ → Action
  send_refresh : ℕ → Action
  send_logout : ℕ → Action
  disconnect : Action
  schedule_reconnect : ℕ → Action
  cancel_reconnect : Action
  emit_event : AccountEvent → Action
  reject_operation : AuthError → Action

pub record Machine : Type 0 where
  pub state : AccountState
  pub operation_id : ℕ
  pub next_operation_id : ℕ
  pub generation : ℕ
  pub account : Bytes
  pub auth_method : AuthMethod
  pub auto_reconnect_allowed : Bool
  pub state_before_refresh : AccountState

abbrev pub u32 : ℕ → ℕ
u32 n = n % 4294967296

abbrev pub u64 : ℕ → ℕ
u64 n = n % 18446744073709551616

unfoldable pub initial : Machine
initial = record {
  state = AccountState.logged_out;
  operation_id = 0;
  next_operation_id = 1;
  generation = 0;
  account = [];
  auth_method = no_method;
  auto_reconnect_allowed = true;
  state_before_refresh = AccountState.authenticated;
}
