-- ===== src/Account/Machine/Run.antt =====
-- The calls of AuthStateMachine as one data type, and sequences of them.
use jitong_app.Base.{ℕ, Bool, List, [], ◌∷◌, ◌++◌, Bytes}
use jitong_app.Account.Types.{AuthError}
use jitong_app.Account.State.{Machine, Action}
use jitong_app.Account.Machine.{
  request_password_login, request_token_login, request_refresh_for_login,
  request_token_login_on_connected, request_refresh, request_logout, cancel_authentication,
  on_connected, on_disconnected, on_auth_succeeded, on_auth_failed, on_refresh_succeeded,
  on_refresh_failed, on_kicked, on_logout_completed,
}

pub data Input : Type 0 where
  password_login token_login refresh_for_login : Bytes → Input
  token_login_on_connected refresh logout cancel connected : Input
  disconnected : Bool → Input
  auth_succeeded : ℕ → ℕ → Input
  auth_failed : ℕ → AuthError → Input
  refresh_succeeded : ℕ → Input
  refresh_failed : ℕ → AuthError → Input
  kicked : AuthError → Input
  logout_completed : Input

abbrev without_id : Machine × List Action × ℕ → Machine × List Action
without_id r = (r.0, r.1)

unfoldable pub step : Input → Machine → Machine × List Action
step (password_login account) m = without_id (request_password_login account m)
step (token_login account) m = without_id (request_token_login account m)
step (refresh_for_login account) m = without_id (request_refresh_for_login account m)
step token_login_on_connected m = without_id (request_token_login_on_connected m)
step refresh m = without_id (request_refresh m)
step logout m = without_id (request_logout m)
step cancel m = cancel_authentication m
step connected m = on_connected m
step (disconnected intentional) m = on_disconnected intentional m
step (auth_succeeded generation user_id) m = on_auth_succeeded generation user_id m
step (auth_failed generation error) m = on_auth_failed generation error m
step (refresh_succeeded generation) m = on_refresh_succeeded generation m
step (refresh_failed generation error) m = on_refresh_failed generation error m
step (kicked reason) m = on_kicked reason m
step logout_completed m = on_logout_completed m

-- The machine after all inputs, and the actions of all of them.
unfoldable pub run : List Input → Machine → Machine × List Action
run [] m = (m, [])
run (i ∷ is) m = let (m1, acts) = step i m in let (m2, more) = run is m1 in (m2, acts ++ more)
