-- ===== src/Account/Machine/Outcomes.antt =====
-- Every login outcome belongs to a login that was begun, and states are left only by their edges.
use jitong_app.Base.{
  ℕ, ◌+◌, ◌≤◌, ◌≡◌, ◌≢◌, Bool, true, false, List, [], ◌∷◌, count_of, count_of-append, arith,
  if◌then◌else◌,
}
use jitong_app.Account.Types.{AccountState, AuthError, AccountEventType, same_state, ends_session}
use jitong_app.Account.State.{Machine, Action, emit_event, initial}
use jitong_app.Account.Machine.{
  request_password_login, request_token_login, request_refresh_for_login,
  request_token_login_on_connected, request_refresh, request_logout, cancel_authentication,
  on_connected, on_disconnected, on_auth_succeeded, on_auth_failed, on_refresh_succeeded,
  on_refresh_failed, on_kicked, on_logout_completed,
}
use jitong_app.Account.Machine.Run.{
  Input, password_login, auth_succeeded, refresh_succeeded, refresh_failed, step, run,
}

abbrev ends_login : AccountEventType → Bool
ends_login AccountEventType.login_succeeded = true
ends_login AccountEventType.login_failed = true
ends_login _ = false

abbrev starts_login : AccountEventType → AccountState → Bool
starts_login AccountEventType.state_changed AccountState.authenticating = true
starts_login _ _ = false

-- LoginSucceeded and LoginFailed events.
abbrev pub is_outcome : Action → Bool
is_outcome (emit_event e) = ends_login e.type
is_outcome _ = false

-- StateChanged events into Authenticating.
abbrev pub is_start : Action → Bool
is_start (emit_event e) = starts_login e.type e.account_state
is_start _ = false

abbrev pub outcomes : List Action → ℕ
outcomes = count_of is_outcome

abbrev pub starts : List Action → ℕ
starts = count_of is_start

abbrev busy : Machine → ℕ
busy m = if same_state m.state AccountState.authenticating then 1 else 0

step_balance :
    (i : Input) (m : Machine)
    → outcomes (step i m).1 + busy (step i m).0 ≤ busy m + starts (step i m).1
unfolding step request_password_login request_token_login request_refresh_for_login
    request_token_login_on_connected request_refresh request_logout cancel_authentication
    on_connected on_disconnected on_auth_succeeded on_auth_failed on_refresh_succeeded
    on_refresh_failed on_kicked on_logout_completed
step_balance (password_login a) m = ground arith
step_balance _ m = ground arith

run_balance :
    (is : List Input) (m : Machine)
    → outcomes (run is m).1 + busy (run is m).0 ≤ busy m + starts (run is m).1
unfolding run
run_balance [] m = omega arith
run_balance (i ∷ is) m = omega (
  arith,
  step_balance i m,
  run_balance is (step i m).0,
  count_of-append is_outcome (step i m).1 (run is (step i m).0).1,
  count_of-append is_start (step i m).1 (run is (step i m).0).1,
)

-- Over any sequence of inputs to a new machine, there are no more LoginSucceeded and LoginFailed
-- events than times at which the state became Authenticating.
pub outcomes-run : (is : List Input) → outcomes (run is initial).1 ≤ starts (run is initial).1
unfolding initial
outcomes-run is = omega (arith, run_balance is initial)

-- The results that let a session in, with the generation and the state that they need.
pub data LetsIn (m : Machine) : Input → Type 0 where
  by_login :
      (g u : ℕ)
      → g ≡ m.generation
      → m.state ≡ AccountState.authenticating
      → LetsIn m (auth_succeeded g u)
  by_refresh :
      (g : ℕ)
      → g ≡ m.generation
      → m.state ≡ AccountState.refreshing
      → LetsIn m (refresh_succeeded g)
  by_failed_refresh :
      (g : ℕ) (x : AuthError)
      → g ≡ m.generation
      → m.state ≡ AccountState.refreshing
      → ends_session x ≡ false
      → LetsIn m (refresh_failed g x)

-- The state becomes Authenticated only by a result with the current generation: of a login while
-- authenticating, of a refresh while refreshing, or of a failed refresh whose error does not end
-- the session.
pub step-LetsIn :
    (i : Input) (m : Machine)
    → m.state ≢ AccountState.authenticated
    → (step i m).0.state ≡ AccountState.authenticated
    → LetsIn m i
unfolding step request_password_login request_token_login request_refresh_for_login
    request_token_login_on_connected request_refresh request_logout cancel_authentication
    on_connected on_disconnected on_auth_succeeded on_auth_failed on_refresh_succeeded
    on_refresh_failed on_kicked on_logout_completed
step-LetsIn (auth_succeeded g u) m h e = by_login g u (ground arith) (ground arith)
step-LetsIn (refresh_succeeded g) m h e = by_refresh g (ground arith) (ground arith)
step-LetsIn (refresh_failed g x) m h e =
    by_failed_refresh g x (ground arith) (ground arith) (ground arith)
step-LetsIn (password_login a) m h e = absurd (ground arith)
step-LetsIn _ m h e = absurd (ground arith)
