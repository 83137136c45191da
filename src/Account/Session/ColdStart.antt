-- ===== src/Account/Session/ColdStart.antt =====
-- AccountSession: a cold start whose refresh cannot be sent.
use jitong_app.Base.{
  ℕ, ◌+◌, ◌<◌, ◌≤◌, ◌≡◌, refl, sym, ap, Bool, true, false, none, List, [], ◌∷◌, ◌++◌, Bytes, All,
  All-append, arith,
}
use jitong_app.Account.Types.{AccountState, AccountEventType, AuthError}
use jitong_app.Account.State.{Action, emit_event, Machine, initial}
use mathlib.Core.Path.{subst}
use jitong_app.Account.ReconnectPolicy.{reset}
use jitong_app.Account.Machine.{
  event_of, transition_to, request_refresh_for_login, on_connected, on_refresh_failed,
}
use jitong_app.Account.TokenManager.{
  Store, TokenSession, TokenManager, apply_atomically, load_from_store, access_usable,
  refresh_expired, begin_refresh,
}
use jitong_app.Account.TokenManager
use jitong_app.Account.TokenManager.Restore.{IsStorable, IsStored, load_from_store-IsStored}
use jitong_app.Account.DeviceProof.{DeviceProofService}
use jitong_app.Account.Session.{
  Session, Call, Output, sends_password_login, sends_token_login, sends_refresh, sends_logout,
  emits, new,
}
use jitong_app.Account.Session.Actions.{start_refresh, run_action, run_list, run_depth}
use jitong_app.Account.Session.Intents.{start_with_saved_token, start_loaded, on_connect_result}

-- A request to the server.
abbrev pub is_request : Output → Bool
is_request (sends_password_login account password generation) = true
is_request (sends_token_login rq generation) = true
is_request (sends_refresh rq generation) = true
is_request (sends_logout rq generation) = true
is_request _ = false

abbrev pub NothingSent : List Output → Type 0
NothingSent log = All (λ (o : Output). is_request o ≡ false) log

-- The session that waits for its connection, to refresh.
record Waits (s t : Session) : Type 0 where
  refreshing : t.machine.state ≡ AccountState.refreshing
  current : t.generation ≡ t.machine.generation
  tokens : t.tokens ≡ s.tokens
  first_connection : t.reauthenticate_after_reconnect ≡ false
  unsent : NothingSent t.log

start_loaded-Waits :
    (x : Call) (account : Bytes) (s : Session)
    → s.machine ≡ initial
    → s.log ≡ []
    → s.reauthenticate_after_reconnect ≡ false
    → access_usable x.now s.tokens ≡ false
    → refresh_expired x.now s.tokens ≡ false
    → Waits s (start_loaded x account s).0
unfolding start_loaded initial request_refresh_for_login transition_to run_depth run_list run_action
start_loaded-Waits x account s m l r a e = record {
  refreshing = ground (arith, m, a, e);
  current = ground (arith, m, a, e);
  tokens = ground (arith, m, a, e);
  first_connection = ground (arith, m, a, e, r);
  unsent = ground (arith, m, a, e, l);
}

to_refresh :
    (x : Call) (t : Session)
    → t.machine.state ≡ AccountState.refreshing
    → t.reauthenticate_after_reconnect ≡ false
    → on_connect_result x true t
      ≡ start_refresh (run_depth 1 x) x (record t { reconnect = reset t.reconnect })
unfolding on_connect_result on_connected run_depth run_list run_action
to_refresh x t h r = ground (arith, h, r)

abbrev told_by : Action → List Output
told_by (emit_event e) = emits e ∷ []
told_by _ = []

-- The two events of the failure.
abbrev told : Machine → List Output → List Output
told m log =
    (log ++ told_by (event_of AccountEventType.refresh_failed AuthError.internal 0 m))
    ++ told_by (
        event_of AccountEventType.state_changed AuthError.none 0
          (record m { state = AccountState.authenticated }))

failed_refresh :
    (x : Call) (t : Session)
    → x.accepts ≡ false
    → t.tokens.refresh_in_flight ≡ false
    → t.machine.state ≡ AccountState.refreshing
    → t.generation ≡ t.machine.generation
    → let r = start_refresh (run_depth 1 x) x t in
      (r.machine.state ≡ AccountState.authenticated) × (r.log ≡ told t.machine t.log)
unfolding start_refresh begin_refresh apply_atomically on_refresh_failed transition_to run_depth
    run_list run_action
failed_refresh x t a f s g = ground (arith, a, f, s, g)

told-NothingSent : (m : Machine) (log : List Output) → NothingSent log → NothingSent (told m log)
told-NothingSent m log h =
    let sent = λ (o : Output). is_request o ≡ false in
    All-append sent _ _ (All-append sent log _ h (refl, tt)) (refl, tt)

-- A cold start: a new session loads an account from the store, where its record has no pending
-- request id, its access token is no longer usable and its refresh token has not expired; the
-- connection is made, and the store does not take the request id of the refresh. Then the account is
-- Authenticated, and no request was ever sent to the server: no login and no refresh. The record has
-- no empty field and its times are positive 64-bit numbers.
pub cold_start_unsent :
    (x x' : Call) (t : TokenSession) (store : Store) (skew : ℕ) (proof : DeviceProofService)
    → let started = (start_with_saved_token x t.account (new store skew proof)).0 in
      let connected = on_connect_result x' true started in
      IsStorable t
      → IsStored t none store
      → t.access_expire_at ≤ x.now + skew
      → x.now < t.refresh_expire_at
      → x'.accepts ≡ false
      → (connected.machine.state ≡ AccountState.authenticated) × NothingSent connected.log
unfolding start_with_saved_token new TokenManager.new
cold_start_unsent x x' t store skew proof k h old later a =
    let fresh = new store skew proof in
    let loaded = load_from_store-IsStored t none x.accepts x.now fresh.tokens k h later in
    let s : Session = record fresh { tokens = record fresh.tokens { session = t } } in
    let started = (start_with_saved_token x t.account fresh).0 in
    let same : started ≡ (start_loaded x t.account s).0 = ground (arith, loaded) in
    let unusable : access_usable x.now s.tokens ≡ false =
      unfold access_usable in ground (arith, old) in
    let alive : refresh_expired x.now s.tokens ≡ false =
      unfold refresh_expired in ground (arith, later, k.refresh_low) in
    let w =
      subst (Waits s) (sym same) (start_loaded-Waits x t.account s refl refl refl unusable alive) in
    let ready : Session = record started { reconnect = reset started.reconnect } in
    let r =
      failed_refresh x' ready a (ap (λ (m : TokenManager). m.refresh_in_flight) w.tokens)
        w.refreshing w.current in
    rw (to_refresh x' started w.refreshing w.first_connection)
      (r.0, subst NothingSent (sym r.1) (told-NothingSent started.machine started.log w.unsent))
