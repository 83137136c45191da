-- ===== src/Account/Machine/Reconnect.antt =====
-- When the session may connect by itself.
use jitong_app.Base.{
  ◌≡◌, ◌⊎◌, refl, Bool, true, false, List, [], ◌∷◌, count_of, count_of-append, arith,
}
use jitong_app.Account.Types.{AccountState}
use jitong_app.Account.State.{Machine, Action, connect, schedule_reconnect}
use jitong_app.Account.Machine.{
  request_token_login_on_connected, request_refresh, request_logout, cancel_authentication,
  on_connected, on_disconnected, on_auth_succeeded, on_auth_failed, on_refresh_succeeded,
  on_refresh_failed, on_kicked, on_logout_completed,
}
use jitong_app.Account.Machine.Run.{
  Input, password_login, token_login, refresh_for_login, cancel, disconnected, kicked,
  logout_completed, step, run,
}

-- The requests by which a user, or a start of the program, logs in.
abbrev pub is_login : Input → Bool
is_login (password_login a) = true
is_login (token_login a) = true
is_login (refresh_for_login a) = true
is_login _ = false

abbrev pub NoLogin : List Input → Type 0
NoLogin [] = Unit {0}
NoLogin (i ∷ is) = (is_login i ≡ false) × NoLogin is

-- The actions that open a connection, now or later.
abbrev pub asks_connection : Action → Bool
asks_connection (connect op) = true
asks_connection (schedule_reconnect op) = true
asks_connection _ = false

-- Logged out, and not to reconnect.
pub record IsOut (m : Machine) : Type 0 where
  pub no_reconnect : m.auto_reconnect_allowed ≡ false
  pub out : (m.state ≡ AccountState.logged_out) ⊎ (m.state ≡ AccountState.logged_out_kicked)

-- The inputs that log out.
abbrev pub is_exit : Input → Bool
is_exit cancel = true
is_exit (kicked r) = true
is_exit logout_completed = true
is_exit _ = false

step_exit-IsOut :
    (i : Input) (m : Machine)
    → is_exit i ≡ true
    → IsOut (step i m).0 × (count_of asks_connection (step i m).1 ≡ 0)
unfolding step cancel_authentication on_kicked on_logout_completed
step_exit-IsOut cancel m e = ground arith
step_exit-IsOut _ m e = ground arith

step-IsOut :
    (i : Input) (m : Machine)
    → is_login i ≡ false
    → IsOut m
    → IsOut (step i m).0 × (count_of asks_connection (step i m).1 ≡ 0)
unfolding step request_token_login_on_connected request_refresh request_logout cancel_authentication
    on_connected on_disconnected on_auth_succeeded on_auth_failed on_refresh_succeeded
    on_refresh_failed on_kicked on_logout_completed
step-IsOut (password_login a) m e v = cc
step-IsOut (disconnected b) m e v = ground arith
step-IsOut _ m e v = ground arith

run-IsOut :
    (is : List Input) (m : Machine)
    → NoLogin is
    → IsOut m
    → IsOut (run is m).0 × (count_of asks_connection (run is m).1 ≡ 0)
unfolding run
run-IsOut [] m n v = (v, refl)
run-IsOut (i ∷ is) m n v =
    let (v1, c1) = step-IsOut i m n.0 v in
    let (v2, c2) = run-IsOut is (step i m).0 n.1 v1 in
    (
      v2,
      ground (arith, c1, c2, count_of-append asks_connection (step i m).1 (run is (step i m).0).1),
    )

-- After a kick, a cancelled login or a completed logout, and whatever follows except the three
-- login requests, the session is logged out, may not reconnect, and has asked for no connection.
pub run_exit :
    (i : Input) (is : List Input) (m : Machine)
    → is_exit i ≡ true
    → NoLogin is
    → IsOut (run (i ∷ is) m).0 × (count_of asks_connection (run (i ∷ is) m).1 ≡ 0)
unfolding run
run_exit i is m e n =
    let (v1, c1) = step_exit-IsOut i m e in
    let (v2, c2) = run-IsOut is (step i m).0 n v1 in
    (
      v2,
      ground (arith, c1, c2, count_of-append asks_connection (step i m).1 (run is (step i m).0).1),
    )
