-- ===== src/Account/Machine/SingleFlight.antt =====
-- One login at a time.
use jitong_app.Base.{◌≡◌, ◌≢◌, false, [], ◌∷◌, Bytes, bytes_eq_iff, bytes_eq_refl, arith}
use jitong_app.Account.Types.{AccountState, AuthError}
use jitong_app.Account.State.{
  Machine, AuthMethod, no_method, password, access_token, reject_operation,
}
use jitong_app.Account.Machine.{in_flight, request_login}

-- The same login requested a second time joins the first: the same operation id, no action and no
-- change, provided that no login or refresh was in flight before the first.
pub request_login_again :
    (account : Bytes) (how : AuthMethod) (m : Machine)
    → in_flight m ≡ false
    → let r = request_login account how m in request_login account how r.0 ≡ (r.0, [], r.2)
unfolding request_login
request_login_again account no_method m h = ground (arith, bytes_eq_refl account)
request_login_again account password m h = ground (arith, bytes_eq_refl account)
request_login_again account access_token m h = ground (arith, bytes_eq_refl account)

-- While a login that was just begun is in flight, with none in flight before it, a login of another
-- account is refused with the operation id 0, the error OperationInProgress, and no change.
pub request_login_other :
    (account other : Bytes) (how how' : AuthMethod) (m : Machine)
    → in_flight m ≡ false
    → other ≢ account
    → (request_login account how m).0.state ≡ AccountState.authenticating
    → let r = request_login account how m in
      request_login other how' r.0 ≡ (r.0, reject_operation AuthError.operation_in_progress ∷ [], 0)
unfolding request_login
request_login_other account other how how' m h d s = ground (arith, bytes_eq_iff other account)
