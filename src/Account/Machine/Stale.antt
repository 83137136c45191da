-- ===== src/Account/Machine/Stale.antt =====
-- Late results: the generation of AuthStateMachine.
use jitong_app.Base.{
  ℕ, ◌+◌, ◌<◌, ◌≡◌, ◌≢◌, ◌∙◌, Bool, true, false, ◌⊎◌, inl, inr, [], Option, none, some, arith,
}
use jitong_app.Account.State.{Machine, u32}
use jitong_app.Account.Machine.{
  request_password_login, request_token_login, request_refresh_for_login,
  request_token_login_on_connected, request_refresh, request_logout, cancel_authentication,
  on_auth_succeeded, on_auth_failed, on_refresh_succeeded, on_refresh_failed,
}
use jitong_app.Account.Machine.Run.{
  Input, password_login, token_login, refresh_for_login, token_login_on_connected, refresh, logout,
  cancel, connected, disconnected, auth_succeeded, auth_failed, refresh_succeeded, refresh_failed,
  kicked, logout_completed, step,
}

-- The generation that a result carries.
abbrev pub generation_of : Input → Option ℕ
generation_of (auth_succeeded g u) = some g
generation_of (auth_failed g e) = some g
generation_of (refresh_succeeded g) = some g
generation_of (refresh_failed g e) = some g
generation_of _ = none

-- A result whose generation is not the machine's changes nothing and asks for no action.
pub step_stale :
    (i : Input) (m : Machine) {g : ℕ}
    → generation_of i ≡ some g
    → g ≢ m.generation
    → step i m ≡ (m, [])
unfolding step on_auth_succeeded on_auth_failed on_refresh_succeeded on_refresh_failed
step_stale (auth_succeeded g u) m e h = ground arith
step_stale (auth_failed g x) m e h = ground arith
step_stale (refresh_succeeded g) m e h = ground arith
step_stale (refresh_failed g x) m e h = ground arith
step_stale (password_login a) m e h = cc
step_stale (token_login a) m e h = cc
step_stale (refresh_for_login a) m e h = cc
step_stale token_login_on_connected m e h = cc
step_stale refresh m e h = cc
step_stale logout m e h = cc
step_stale cancel m e h = cc
step_stale connected m e h = cc
step_stale (disconnected b) m e h = cc
step_stale (kicked r) m e h = cc
step_stale logout_completed m e h = cc

-- The calls that begin another operation, or give the current one up.
abbrev pub is_request : Input → Bool
is_request (password_login a) = true
is_request (token_login a) = true
is_request (refresh_for_login a) = true
is_request token_login_on_connected = true
is_request refresh = true
is_request logout = true
is_request cancel = true
is_request _ = false

abbrev NextGeneration : Machine → Machine → Type 0
NextGeneration m n = n.generation ≡ u32 (m.generation + 1)

-- A request either moves to the next generation, or leaves the machine as it was.
pub step_request :
    (i : Input) (m : Machine)
    → is_request i ≡ true
    → NextGeneration m (step i m).0 ⊎ ((step i m).0 ≡ m)
unfolding step request_password_login request_token_login request_refresh_for_login request_logout
    request_token_login_on_connected request_refresh cancel_authentication
step_request (password_login a) m e = ground arith
step_request (token_login a) m e = ground arith
step_request _ m e = ground arith

-- After a request that changes the machine, a result that carries the generation from before it
-- changes nothing and asks for no action, provided that the generation is a 32-bit number.
pub step_superseded :
    (i r : Input) (m : Machine)
    → is_request i ≡ true
    → (step i m).0 ≢ m
    → generation_of r ≡ some m.generation
    → m.generation < 4294967296
    → step r (step i m).0 ≡ ((step i m).0, [])
step_superseded i r m q c g h = elim (step_request i m q) [
  | inl e ↦ step_stale r (step i m).0 g (λ d. omega (arith, d ∙ e))
  | inr e ↦ absurd (c e)
]
