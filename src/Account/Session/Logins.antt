-- ===== src/Account/Session/Logins.antt =====
-- AccountSession: what a login that succeeds leaves in the store, and what one whose connection
-- fails leaves in memory.
use mathlib.Core.Path.{subst}
use jitong_app.Base.{
  ℕ, ◌<◌, ◌≡◌, ◌≢◌, refl, sym, ap, ◌∙◌, Bool, true, false, Bytes, ◌==◌, arith, Bool-cases, inl, inr,
}
use jitong_app.Account.Types.{AccountState, AuthError}
use jitong_app.Account.State.{Machine}
use jitong_app.Account.Machine.{
  on_auth_failed, on_auth_succeeded, request_password_login, request_login, on_connected,
  transition_to, in_flight,
}
use jitong_app.Account.Machine
use jitong_app.Account.TokenManager.{
  Store, TokenManager, TokenSession, adopt, persist, settle, apply_atomically, load_from_store, new,
}
use jitong_app.Account.TokenManager.Restore.{IsStorable, load_from_store-adopt}
use jitong_app.Account.Session.{Session, Call, AuthResult}
use jitong_app.Account.Session.Actions.{
  follow, generation_of, run_action, run_list, run_depth, run_actions,
}
use jitong_app.Account.Session.Intents.{
  session_of, logged_in, on_login_result, start_with_password, on_connect_result, map_login_error,
}

-- The plain actions of a login's end change neither the tokens nor the machine.
tokens-run :
    (x : Call) (generation user : ℕ) (s : Session) (m : Machine)
    → (follow (run_actions x) s (on_auth_succeeded generation user m)).tokens ≡ s.tokens
unfolding on_auth_succeeded transition_to run_depth run_list run_action
tokens-run x generation user s m = ground arith

tokens-failed :
    (x : Call) (generation : ℕ) (error : AuthError) (s : Session) (m : Machine)
    → (follow (run_actions x) s (on_auth_failed generation error m)).machine
      ≡ (on_auth_failed generation error m).0
unfolding on_auth_failed transition_to run_depth run_list run_action
tokens-failed x generation error s m = ground arith

on_auth_failed_state :
    (generation : ℕ) (error : AuthError) (m : Machine)
    → m.state ≡ AccountState.authenticating
    → (on_auth_failed generation error m).0.state ≢ AccountState.authenticated
unfolding on_auth_failed transition_to
on_auth_failed_state generation error m h = ground (arith, h)

adopt_refused : (t : TokenSession) (m : TokenManager) → (adopt false t m).1 ≡ false
unfolding adopt persist settle apply_atomically
adopt_refused t m = refl

failed_state :
    (x : Call) (generation : ℕ) (error : AuthError) (s t : Session)
    → s.machine.state ≡ AccountState.authenticating
    → (follow (run_actions x) t (on_auth_failed generation error s.machine)).machine.state
      ≢ AccountState.authenticated
failed_state x generation error s t h e =
    on_auth_failed_state generation error s.machine h
      (ap (λ (m : Machine). m.state) (sym (tokens-failed x generation error t s.machine)) ∙ e)

logged_in_lem :
    (x : Call) (generation user : ℕ) (s : Session) (r : TokenManager × Bool)
    → s.machine.state ≡ AccountState.authenticating
    → (logged_in x generation user s r).machine.state ≡ AccountState.authenticated
    → ((logged_in x generation user s r).tokens.store ≡ r.0.store) × (r.1 ≡ true)
logged_in_lem x generation user s (tokens, true) h e =
    let t : Session = record s { tokens = tokens } in
    (ap (λ (m : TokenManager). m.store) (tokens-run x generation user t s.machine), refl)
logged_in_lem x generation user s (tokens, false) h e =
    absurd (failed_state x generation AuthError.internal s (record s { tokens = tokens }) h e)

logged_in-adopt :
    (accepts : Bool) (x : Call) (generation user : ℕ) (s : Session) (t : TokenSession)
    → s.machine.state ≡ AccountState.authenticating
    → (logged_in x generation user s (adopt accepts t s.tokens)).machine.state
      ≡ AccountState.authenticated
    → (logged_in x generation user s (adopt accepts t s.tokens)).tokens.store
      ≡ (adopt true t s.tokens).0.store
logged_in-adopt true x generation user s t h e =
    (logged_in_lem x generation user s (adopt true t s.tokens) h e).0
logged_in-adopt false x generation user s t h e =
    cc
      (adopt_refused t s.tokens, (logged_in_lem x generation user s (adopt false t s.tokens) h e).1)

store-on_login_result :
    (x : Call) (result : ℕ) (r : AuthResult) (requested : ℕ) (s : Session)
    → s.machine.state ≡ AccountState.authenticating
    → (on_login_result x result r requested s).machine.state ≡ AccountState.authenticated
    → (on_login_result x result r requested s).tokens.store
      ≡ (adopt true (session_of s.account r) s.tokens).0.store
unfolding on_login_result
store-on_login_result x result r requested s h e =
    let generation = generation_of requested s in
    elim (Bool-cases (generation == s.machine.generation)) [
      | inr n ↦ cc (h, rw n at e)
      | inl n ↦ elim (Bool-cases (result == 0)) [
        | inr z ↦ absurd (failed_state x generation (map_login_error result) s s h (rw (n, z) at e))
        | inl z ↦
            rw (n, z)
              (logged_in-adopt x.accepts x generation r.user_id s (session_of s.account r) h
                (rw (n, z) at e))
      ]
    ]

-- A login that brought the account from authenticating to authenticated has its tokens in the
-- store: a new token manager on that store, as after a restart, loads the account with the session
-- of the answer and no pending refresh. The answer has no empty field, its times are positive 64-bit
-- numbers, and its refresh token has not expired at the time of the load.
pub load_from_store-on_login_result :
    (x : Call) (result : ℕ) (r : AuthResult) (requested : ℕ) (s : Session) (accepts : Bool)
    (now skew : ℕ)
    → let after = on_login_result x result r requested s in
      let session = session_of s.account r in
      let fresh = new after.tokens.store skew in
      s.machine.state ≡ AccountState.authenticating
      → after.machine.state ≡ AccountState.authenticated
      → IsStorable session
      → now < r.refresh_expire_at
      → load_from_store accepts s.account now fresh ≡ (record fresh { session = session }, true)
load_from_store-on_login_result x result r requested s accepts now skew h e k t =
    let session = session_of s.account r in
    subst
      (λ (store : Store).
        load_from_store accepts s.account now (new store skew)
        ≡ (record (new store skew) { session = session }, true))
      (sym (store-on_login_result x result r requested s h e))
      (load_from_store-adopt session s.tokens accepts now skew k t)

start_with_password_lem :
    (x : Call) (account password : Bytes) (s : Session)
    → in_flight s.machine ≡ false
    → ((start_with_password x account password s).1 == 0) ≡ false
    → let t = (start_with_password x account password s).0 in
      (t.machine.state ≡ AccountState.authenticating)
      × (t.machine.auto_reconnect_allowed ≡ true)
      × (t.pending_password ≡ password)
unfolding start_with_password request_password_login request_login transition_to run_depth run_list
    run_action
start_with_password_lem x account password s h n = ground arith

connection_failed :
    (x : Call) (t : Session)
    → t.machine.state ≡ AccountState.authenticating
    → t.machine.auto_reconnect_allowed ≡ true
    → ((on_connect_result x false t).machine.state ≡ AccountState.logged_out)
      × ((on_connect_result x false t).pending_password ≡ t.pending_password)
unfolding on_connect_result Machine.on_disconnected transition_to run_depth run_list run_action
connection_failed x t a b = ground arith

-- A password login whose connection fails is over: the account is logged out. The password that the
-- session holds for it is still there. No authentication was in flight, and the login got an
-- operation id.
pub pending_password-on_connect_result :
    (x x' : Call) (account password : Bytes) (s : Session)
    → let started = start_with_password x account password s in
      let after = on_connect_result x' false started.0 in
      in_flight s.machine ≡ false
      → (started.1 == 0) ≡ false
      → (after.machine.state ≡ AccountState.logged_out) × (after.pending_password ≡ password)
pending_password-on_connect_result x x' account password s h n =
    let a = start_with_password_lem x account password s h n in
    let b = connection_failed x' (start_with_password x account password s).0 a.0 a.1 in
    (b.0, b.1 ∙ a.2)
