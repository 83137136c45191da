-- ===== src/Account/Session/Depth.antt =====
-- AccountSession::runActions comes to an end: an action that fails runs actions that cannot fail.
use mathlib.Core.Path.{ap₂}
use jitong_app.Base.{
  ℕ, suc, ◌≡◌, refl, ap, ◌∙◌, Bool, true, false, not, ◌&&◌, Option, none, some, List, [], ◌∷◌,
  is_empty, ◌==◌, if◌then◌else◌, All, arith,
}
use jitong_app.Transport.Messages.{TokenLoginRq, RefreshTokenRq, LogoutRq}
use jitong_app.Account.Types.{AuthError}
use jitong_app.Account.State.{
  Action, connect, send_password_login, send_token_login, send_refresh, send_logout, disconnect,
  schedule_reconnect, cancel_reconnect, emit_event, reject_operation, Machine,
}
use jitong_app.Account.Machine.{
  on_auth_failed, on_refresh_failed, on_logout_completed, transition_to,
}
use jitong_app.Account.TokenManager.{begin_refresh}
use jitong_app.Account.DeviceProof.{build_token_login, build_refresh, build_logout}
use jitong_app.Account.Session.{Session, Call, no_result}
use jitong_app.Account.Session.Actions.{
  Runner, refresh_result, logout_result, send_token, send_rotation, send_leaving, start_refresh,
  run_action, run_list, run_depth, run_actions, generation_of,
}

-- An action whose execution cannot fail.
abbrev pub is_plain : Action → Bool
is_plain (send_token_login op) = false
is_plain (send_refresh op) = false
is_plain (send_logout op) = false
is_plain _ = true

abbrev pub Plain : List Action → Type 0
Plain actions = All (λ a. is_plain a ≡ true) actions

on_auth_failed-Plain :
    (g : ℕ) (error : AuthError) (m : Machine) → Plain (on_auth_failed g error m).1
unfolding on_auth_failed transition_to
on_auth_failed-Plain g error m = ground arith

on_refresh_failed-Plain :
    (g : ℕ) (error : AuthError) (m : Machine) → Plain (on_refresh_failed g error m).1
unfolding on_refresh_failed transition_to
on_refresh_failed-Plain g error m = ground arith

on_logout_completed-Plain : (m : Machine) → Plain (on_logout_completed m).1
unfolding on_logout_completed transition_to
on_logout_completed-Plain m = ground arith

run_action_plain :
    (f g : Runner) (x : Call) (a : Action) (s : Session)
    → is_plain a ≡ true
    → run_action f x a s ≡ run_action g x a s
unfolding run_action
run_action_plain f g x (connect op) s h = refl
run_action_plain f g x (send_password_login op) s h = refl
run_action_plain f g x (send_token_login op) s h = cc
run_action_plain f g x (send_refresh op) s h = cc
run_action_plain f g x (send_logout op) s h = cc
run_action_plain f g x disconnect s h = refl
run_action_plain f g x (schedule_reconnect op) s h = refl
run_action_plain f g x cancel_reconnect s h = refl
run_action_plain f g x (emit_event e) s h = refl
run_action_plain f g x (reject_operation e) s h = refl

-- Runners that agree on plain actions.
abbrev Agree : Runner → Runner → Type 0
Agree f g = (actions : List Action) (s : Session) → Plain actions → f actions s ≡ g actions s

run_list-Plain :
    (f g : Runner) (x : Call) (actions : List Action) (s : Session)
    → Plain actions
    → run_list f x actions s ≡ run_list g x actions s
unfolding run_list
run_list-Plain f g x [] s h = refl
run_list-Plain f g x (a ∷ actions) s h =
    ap (run_list f x actions) (run_action_plain f g x a s h.0)
    ∙ run_list-Plain f g x actions (run_action g x a s) h.1

module _ (f g : Runner) (x : Call) (agree : Agree f g) where
  send_token_agree : (s : Session) (o : Option TokenLoginRq) → send_token f s o ≡ send_token g s o
  send_token_agree s (some rq) = refl
  send_token_agree s none =
      agree _ _ (on_auth_failed-Plain s.generation AuthError.device_proof_failed s.machine)

  refresh_result_agree :
      (requested : ℕ) (s : Session)
      → refresh_result f x 1 no_result requested s ≡ refresh_result g x 1 no_result requested s
  unfolding refresh_result
  refresh_result_agree requested s =
      let generation = generation_of requested s in
      ap (λ (z : Session). if not (generation == s.machine.generation) then s else z)
        (agree _ _ (on_refresh_failed-Plain generation AuthError.token_revoked s.machine))

  logout_result_agree :
      (requested : ℕ) (s : Session) → logout_result f x requested s ≡ logout_result g x requested s
  unfolding logout_result
  logout_result_agree requested s =
      ap
        (λ (z : Session).
          if not (requested == 0) && not (requested == s.machine.generation) then s else z)
        (agree _ _ (on_logout_completed-Plain s.machine))

  send_rotation_agree :
      (s : Session) (o : Option RefreshTokenRq) → send_rotation f x s o ≡ send_rotation g x s o
  send_rotation_agree s (some rq) = refl
  send_rotation_agree s none = refresh_result_agree s.machine.generation s

  send_leaving_agree :
      (s : Session) (o : Option LogoutRq) → send_leaving f x s o ≡ send_leaving g x s o
  send_leaving_agree s (some rq) = refl
  send_leaving_agree s none = logout_result_agree s.machine.generation s

  start_refresh_agree : (s : Session) → start_refresh f x s ≡ start_refresh g x s
  unfolding start_refresh
  start_refresh_agree s =
      let begun = begin_refresh x.accepts x.now s.tokens in
      let t : Session = record s { tokens = begun.0 } in
      ap₂ (λ (a b : Session). if is_empty begun.1 then a else b)
        (agree _ _ (on_refresh_failed-Plain s.generation AuthError.internal s.machine))
        (send_rotation_agree t
          (build_refresh s.proof x.app_session_id begun.0.session.refresh_token begun.1))

  run_action_agree : (a : Action) (s : Session) → run_action f x a s ≡ run_action g x a s
  unfolding run_action
  run_action_agree (send_token_login op) s = send_token_agree s (
      build_token_login s.proof x.app_session_id s.tokens.session.access_token
        s.tokens.session.session_id)
  run_action_agree (send_refresh op) s = start_refresh_agree s
  run_action_agree (send_logout op) s =
      send_leaving_agree s
        (build_logout s.proof x.app_session_id s.tokens.session.refresh_token s.logout_all_devices)
  run_action_agree (connect op) s = refl
  run_action_agree (send_password_login op) s = refl
  run_action_agree disconnect s = refl
  run_action_agree (schedule_reconnect op) s = refl
  run_action_agree cancel_reconnect s = refl
  run_action_agree (emit_event e) s = refl
  run_action_agree (reject_operation e) s = refl

  run_list_agree :
      (actions : List Action) (s : Session) → run_list f x actions s ≡ run_list g x actions s
  unfolding run_list
  run_list_agree [] s = refl
  run_list_agree (a ∷ actions) s =
      ap (run_list f x actions) (run_action_agree a s) ∙ run_list_agree actions (run_action g x a s)

-- One level is enough for plain actions.
run_depth-Plain : (depth : ℕ) (x : Call) → Agree (run_depth (suc depth) x) (run_depth 1 x)
unfolding run_depth
run_depth-Plain depth x actions s h =
    run_list-Plain (run_depth depth x) (run_depth 0 x) x actions s h

-- However many levels of nested actions are allowed beyond two, the actions of a call do the same:
-- an action that fails runs actions that cannot fail, so that the code's recursion ends.
pub run_depth_enough :
    (depth : ℕ) (x : Call) (actions : List Action) (s : Session)
    → run_depth (suc (suc depth)) x actions s ≡ run_actions x actions s
unfolding run_depth
run_depth_enough depth x actions s =
    run_list_agree (run_depth (suc depth) x) (run_depth 1 x) x (run_depth-Plain depth x) actions s
