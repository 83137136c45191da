-- ===== src/Account/Tests.antt =====
-- The theorems about AuthStateMachine at concrete inputs.
use jitong_app.Account.TokenManager
use jitong_app.Account.TokenManager.{
  TokenSession, adopt, load_from_store, begin_refresh, suspend_refresh,
}
use jitong_app.Account.TokenManager.Decimal.{parse_positive_int, skip_space, read_digits}
use jitong_app.Account.TokenManager.Restore.{IsStorable, load_from_store-adopt}
use jitong_app.Account.TokenManager.Flight.{begin_refresh_again}
use jitong_app.Account.ReconnectPolicy.{new, doubled, capped, with_jitter, next_delay_ms, reset}
use jitong_app.Account.ReconnectPolicy.Delays.{calls, or_zero, delay_exact}
use jitong_app.Base.{
  ℕ, ◌+◌, ◌≡◌, refl, List, [], ◌∷◌, arith, min, length, ◌*◌, ◌^◌, Option, none, some, ◌≤◌, ◌≡◌,
  refl, ap, true, false, List, [], ◌∷◌, Bytes, codes, count_of, arith,
}
use jitong_app.Account.Types.{AccountState, AuthError}
use jitong_app.Account.State.{Machine, reject_operation, password, access_token, initial}
use jitong_app.Account.Machine.{
  request_login, request_password_login, request_refresh_for_login, request_logout,
  on_refresh_failed, on_auth_succeeded, transition_to,
}
use jitong_app.Account.Machine.Run.{
  Input, password_login, logout, kicked, disconnected, connected, auth_succeeded, auth_failed, step,
  run,
}
use jitong_app.Account.Machine.Stale.{step_stale, step_superseded}
use jitong_app.Account.Machine.SingleFlight.{request_login_again, request_login_other}
use jitong_app.Account.Machine.Reconnect.{IsOut, asks_connection, run_exit}
use jitong_app.Account.Machine.Outcomes.{LetsIn, outcomes, starts, outcomes-run, step-LetsIn}

abbrev alice : Bytes
alice = codes "alice"

abbrev bob : Bytes
bob = codes "bob"

abbrev logging_in : Machine
logging_in = record {
  state = AccountState.authenticating;
  operation_id = 1;
  next_operation_id = 2;
  generation = 1;
  account = alice;
  auth_method = password;
  auto_reconnect_allowed = true;
  state_before_refresh = AccountState.authenticated;
}

login_run : (request_password_login alice initial).0 ≡ logging_in
unfolding request_password_login initial
login_run = refl

abbrev history : List Input
history =
    password_login alice
    ∷ connected
    ∷ auth_failed 1 AuthError.invalid_credentials
    ∷ password_login alice
    ∷ connected
    ∷ auth_succeeded 1 7
    ∷ auth_succeeded 2 7
    ∷ []

history-run :
    ((run history initial).0.state ≡ AccountState.authenticated)
    × (outcomes (run history initial).1 ≡ 2)
    × (starts (run history initial).1 ≡ 2)
unfolding run step initial request_password_login on_auth_succeeded
    jitong_app.Account.Machine.on_connected jitong_app.Account.Machine.on_auth_failed
history-run = (refl, refl, refl)

step_stale_run : step (auth_succeeded 0 7) logging_in ≡ (logging_in, [])
step_stale_run = step_stale (auth_succeeded 0 7) logging_in {g = 0} refl (omega arith)

step_superseded_example :
    step (auth_succeeded 1 7) (step logout logging_in).0 ≡ ((step logout logging_in).0, [])
unfolding step request_logout
step_superseded_example =
    step_superseded logout (auth_succeeded 1 7) logging_in refl
      (λ e. omega (arith, ap (λ (m : Machine). m.generation) e)) refl (omega arith)

request_login_again_run :
    let r = request_login alice password initial in
    request_login alice password r.0 ≡ (r.0, [], r.2)
unfolding initial
request_login_again_run = request_login_again alice password initial refl

request_login_other_run :
    let r = request_login alice password initial in
    request_login bob access_token r.0
    ≡ (r.0, reject_operation AuthError.operation_in_progress ∷ [], 0)
unfolding initial request_login
request_login_other_run =
    request_login_other alice bob password access_token initial refl (λ e. grind (arith, e)) refl

run_exit_example :
    let is = kicked AuthError.kicked_by_other_device ∷ disconnected false ∷ connected ∷ [] in
    IsOut (run is logging_in).0 × (count_of asks_connection (run is logging_in).1 ≡ 0)
run_exit_example =
    run_exit (kicked AuthError.kicked_by_other_device) (disconnected false ∷ connected ∷ [])
      logging_in refl (refl, (refl, tt))

outcomes-run_example : outcomes (run history initial).1 ≤ starts (run history initial).1
outcomes-run_example = outcomes-run history

step-LetsIn_run : LetsIn logging_in (auth_succeeded 1 7)
unfolding step on_auth_succeeded
step-LetsIn_run = step-LetsIn (auth_succeeded 1 7) logging_in (λ e. cc) refl

abbrev no_jitter : List (Option ℕ)
no_jitter = none ∷ some 40 ∷ none ∷ none ∷ []

-- The fifth delay of the default policy: 16 seconds and this call's jitter.
delay_run : (next_delay_ms (some 200) (calls no_jitter (reset (new 1000 30000)))).1 ≡ some 16200
unfolding next_delay_ms doubled capped with_jitter calls reset new
delay_run = refl

delay_exact_run :
    (next_delay_ms (some 200) (calls no_jitter (reset (new 1000 30000)))).1
    ≡ some (min 30000 (min 30000 (1000 * 2 ^ length no_jitter) + or_zero (some 200)))
unfolding new
delay_exact_run = delay_exact no_jitter (some 200) (new 1000 30000) (omega arith)

abbrev alice_session : TokenSession
alice_session = record {
  access_token = codes "a1";
  refresh_token = codes "r1";
  access_expire_at = 1300;
  refresh_expire_at = 9000;
  session_id = codes "s1";
  account = alice;
}

alice_session-IsStorable : IsStorable alice_session
alice_session-IsStorable = record {
  access_token = refl;
  refresh_token = refl;
  session_id = refl;
  access_low = omega arith;
  access_high = omega arith;
  refresh_low = omega arith;
  refresh_high = omega arith;
}

load_from_store-adopt_example :
    let stored = (adopt true alice_session (TokenManager.new [] 60)).0.store in
    let fresh = TokenManager.new stored 60 in
    load_from_store false alice 1000 fresh ≡ (record fresh { session = alice_session }, true)
load_from_store-adopt_example =
    load_from_store-adopt alice_session (TokenManager.new [] 60) false 1000 60
      alice_session-IsStorable (omega arith)

begin_refresh_again_run :
    let r = begin_refresh true 1250 (adopt true alice_session (TokenManager.new [] 60)).0 in
    let l = (load_from_store false alice 1400 (TokenManager.new r.0.store 60)).0 in
    (begin_refresh false 1400 (suspend_refresh r.0) ≡ r)
    × ((begin_refresh false 1400 l ≡ (l, r.1)) × (l.session ≡ alice_session))
begin_refresh_again_run =
    begin_refresh_again alice_session (TokenManager.new [] 60) false 1250 1400 60
      alice_session-IsStorable (omega arith)

read_numbers :
    (parse_positive_int (codes " +42") ≡ some 42) × (parse_positive_int (codes "4 2") ≡ none)
unfolding parse_positive_int skip_space read_digits
read_numbers = (refl, refl)
