-- ===== src/Account/Session/Tests.antt =====
-- Runs of AccountSession: a login, its connection lost, and another one.
use jitong_app.Base.{ℕ, ◌≡◌, refl, true, false, none, [], ◌∷◌, Bytes, codes, arith}
use jitong_app.Account.Types.{AccountState}
use jitong_app.Account.State.{send_refresh, initial}
use jitong_app.Account.Machine.{
  request_password_login, request_login, transition_to, on_auth_succeeded, on_refresh_failed,
  cancel_authentication,
}
use jitong_app.Account.Machine
use jitong_app.Account.TokenManager.{
  Store, TokenSession, TokenManager, adopt, persist, settle, apply_atomically, load_from_store,
  begin_refresh,
}
use jitong_app.Account.TokenManager
use jitong_app.Account.TokenManager.Restore.{IsStorable, adopt-IsStored}
use jitong_app.Account.TokenManager.Stale.{begin_refresh-load_from_store}
use jitong_app.Account.DeviceProof.{DeviceProofService}
use jitong_app.Account.Session.{Session, Call, AuthResult, new}
use jitong_app.Account.Session.Actions.{run_action, run_list, run_depth, run_actions}
use jitong_app.Account.Session.Intents.{
  session_of, on_login_result, start_with_password, start_with_saved_token, on_connect_result,
  on_disconnected, cancel,
}
use jitong_app.Account.Session.Depth.{run_depth_enough}
use jitong_app.Account.Session.Logins.{
  load_from_store-on_login_result, pending_password-on_connect_result,
}
use jitong_app.Account.Session.ColdStart.{NothingSent, cold_start_unsent}
use jitong_app.Account.Session.Lost.{login_after_cancel_lost}

abbrev call : Call
call = record { now = 1000; accepts = true; jitter = none; app_session_id = codes "app" }

-- A device without a key.
abbrev proof : DeviceProofService
proof = record {
  signer = record { public_key_der = []; sign = λ m. [] };
  device_id = codes "phone";
}

abbrev alice : Bytes
alice = codes "alice"

abbrev secret : Bytes
secret = codes "secret"

abbrev fresh : Session
fresh = new [] 60 proof

abbrev waiting : Session
waiting = (start_with_password call alice secret fresh).0

abbrev reply : AuthResult
reply = record {
  user_id = 7;
  access_token = codes "a";
  refresh_token = codes "r";
  access_expire_at = 1300;
  refresh_expire_at = 9000;
  session_id = codes "s";
}

reply-IsStorable : (account : Bytes) → IsStorable (session_of account reply)
reply-IsStorable account = record {
  access_token = refl;
  refresh_token = refl;
  session_id = refl;
  access_low = omega arith;
  access_high = omega arith;
  refresh_low = omega arith;
  refresh_high = omega arith;
}

abbrev entered : Session
entered = on_login_result call 0 reply 0 waiting

run_depth_enough_example :
    run_depth 5 call (send_refresh 1 ∷ []) fresh ≡ run_actions call (send_refresh 1 ∷ []) fresh
run_depth_enough_example = run_depth_enough 3 call (send_refresh 1 ∷ []) fresh

pending_password-on_connect_result_example :
    ((on_connect_result call false waiting).machine.state ≡ AccountState.logged_out)
    × ((on_connect_result call false waiting).pending_password ≡ secret)
unfolding new initial start_with_password request_password_login request_login transition_to
pending_password-on_connect_result_example =
    pending_password-on_connect_result call call alice secret fresh refl refl

load_from_store-on_login_result_example :
    load_from_store false waiting.account 2000 (TokenManager.new entered.tokens.store 60) ≡ (
      record (TokenManager.new entered.tokens.store 60) {
        session = session_of waiting.account reply;
      },
      true,
    )
unfolding new initial start_with_password request_password_login request_login transition_to
    run_depth run_list run_action on_login_result on_auth_succeeded adopt persist settle
    apply_atomically
load_from_store-on_login_result_example =
    load_from_store-on_login_result call 0 reply 0 waiting false 2000 60 refl refl
      (reply-IsStorable waiting.account) (omega arith)

abbrev again : Session × ℕ
again = start_with_password call alice secret (cancel call (on_disconnected call false entered))

login_after_cancel_lost_example :
    ((on_connect_result call true again.0).log ≡ again.0.log)
    × ((on_connect_result call true again.0).machine.state ≡ AccountState.authenticating)
unfolding new initial start_with_password request_password_login request_login transition_to
    run_depth run_list run_action on_login_result on_auth_succeeded adopt persist settle
    apply_atomically cancel cancel_authentication on_disconnected Machine.on_disconnected
login_after_cancel_lost_example =
    login_after_cancel_lost call call call call alice secret entered refl refl

-- Alice's record is in the store while the manager has Bob's refresh pending.
abbrev bob : TokenManager
bob = record (adopt true (session_of alice reply) (TokenManager.new [] 60)).0 {
  refresh_in_flight = true;
  refresh_request_id = codes "rf-bob";
}

begin_refresh-load_from_store_example :
    ((load_from_store false alice 1000 bob).0.session ≡ session_of alice reply)
    × ((begin_refresh true 1250 (load_from_store false alice 1000 bob).0).1 ≡ codes "rf-bob")
begin_refresh-load_from_store_example =
    begin_refresh-load_from_store (session_of alice reply) false true 1000 1250 bob
      (reply-IsStorable alice) (adopt-IsStored (session_of alice reply) (TokenManager.new [] 60))
      (omega arith) refl refl

abbrev kept : Store
kept = (adopt true (session_of alice reply) (TokenManager.new [] 60)).0.store

cold_start_unsent_example :
    let started =
      (start_with_saved_token (record call { now = 2000 }) alice (new kept 60 proof)).0 in
    let connected = on_connect_result (record call { now = 2001; accepts = false }) true started in
    (connected.machine.state ≡ AccountState.authenticated) × NothingSent connected.log
cold_start_unsent_example =
    cold_start_unsent (record call { now = 2000 }) (record call { now = 2001; accepts = false })
      (session_of alice reply) kept 60 proof (reply-IsStorable alice)
      (adopt-IsStored (session_of alice reply) (TokenManager.new [] 60)) (omega arith) (omega arith)
      refl
