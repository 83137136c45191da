-- ===== src/Account/Session.antt =====
-- client_core/src/account/AccountSession.cpp and AccountSession.h, on top of the state machine, the
-- token manager, the device proofs and the reconnect policy. `log` holds the calls of the transport
-- and of the event sink, oldest first; a call back comes as a step of its own. `Call` is what one
-- call meets outside: the clock, whether the store accepts a change, the jitter and the id of the
-- secure channel.
pub mod Actions
pub mod Intents
pub mod Depth
pub mod Logins
pub mod Lost
pub mod ColdStart
mod Tests
use jitong_app.Base.{ℕ, Bool, true, false, Option, none, some, List, [], ◌∷◌, ◌++◌, Bytes}
use jitong_app.Transport.Messages.{TokenLoginRq, RefreshTokenRq, LogoutRq}
use jitong_app.Account.Types.{AuthError, AccountEventType, AccountEvent, ConnectionState}
use jitong_app.Account.State.{Machine, initial}
use jitong_app.Account.TokenManager.{TokenManager, Store}
use jitong_app.Account.TokenManager
use jitong_app.Account.ReconnectPolicy.{ReconnectPolicy}
use jitong_app.Account.ReconnectPolicy
use jitong_app.Account.DeviceProof.{DeviceProofService}

-- AuthResult
pub record AuthResult : Type 0 where
  pub user_id : ℕ
  pub access_token : Bytes
  pub refresh_token : Bytes
  pub access_expire_at : ℕ
  pub refresh_expire_at : ℕ
  pub session_id : Bytes

abbrev pub no_result : AuthResult
no_result = record {
  user_id = 0;
  access_token = [];
  refresh_token = [];
  access_expire_at = 0;
  refresh_expire_at = 0;
  session_id = [];
}

-- The calls of IAuthTransport and of the event sink.
pub data Output : Type 0 where
  connects : Output
  disconnects : Output
  sends_password_login : Bytes → Bytes → ℕ → Output
  sends_token_login : TokenLoginRq → ℕ → Output
  sends_refresh : RefreshTokenRq → ℕ → Output
  sends_logout : LogoutRq → ℕ → Output
  schedules_reconnect : Option ℕ → Output
  cancels_reconnect : Output
  emits : AccountEvent → Output

pub record Session : Type 0 where
  pub machine : Machine
  pub tokens : TokenManager
  pub proof : DeviceProofService
  pub reconnect : ReconnectPolicy
  pub account : Bytes
  pub pending_password : Bytes
  pub generation : ℕ
  pub logout_all_devices : Bool
  pub token_login_after_refresh : Bool
  pub reauthenticate_after_reconnect : Bool
  pub log : List Output

pub record Call : Type 0 where
  pub now : ℕ
  pub accepts : Bool
  pub jitter : Option ℕ
  pub app_session_id : Bytes

unfoldable pub new : Store → ℕ → DeviceProofService → Session
unfolding initial TokenManager.new ReconnectPolicy.new
new store skew proof = record {
  machine = initial;
  tokens = TokenManager.new store skew;
  proof = proof;
  reconnect = ReconnectPolicy.new 1000 30000;
  account = [];
  pending_password = [];
  generation = 0;
  logout_all_devices = false;
  token_login_after_refresh = false;
  reauthenticate_after_reconnect = false;
  log = [];
}

abbrev pub write : Output → Session → Session
write o s = record s { log = s.log ++ o ∷ [] }
