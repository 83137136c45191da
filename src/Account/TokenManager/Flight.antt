-- ===== src/Account/TokenManager/Flight.antt =====
-- TokenManager: one refresh at a time, with one request id.
use jitong_app.Base.{
  ℕ, ◌<◌, ◌≡◌, refl, ap, ◌∙◌, Bool, true, false, Option, none, some, List, [], ◌∷◌, Bytes, bytes_eq,
  is_empty, arith,
}
use jitong_app.Base.Dict.{bytes_Eq}
use jitong_app.Account.TokenManager.{
  Store, TokenSession, TokenManager, new, access, refresh, access_exp, refresh_exp, session_key,
  request_key, put_all, apply_atomically, persist, settle, adopt, with_pending, load_from_store,
  begin_refresh, suspend_refresh,
}
use jitong_app.Account.TokenManager.Store.{after_puts, find-put_all}
use jitong_app.Account.TokenManager.Restore.{
  IsStorable, IsStored, adopt-IsStored, load_from_store-IsStored,
}

-- What a refresh that begins leaves: its id, in memory and in the store.
record Begun (s : TokenSession) (r : TokenManager × Bytes) : Type 0 where
  in_flight : r.0.refresh_in_flight ≡ true
  request : r.0.refresh_request_id ≡ r.1
  named : is_empty r.1 ≡ false
  stored : IsStored s (some r.1) r.0.store

put-IsStored :
    (s : TokenSession) (pending : Option Bytes) (id : Bytes) (store : Store)
    → IsStored s pending store
    → IsStored s (some id) (put_all s.account ((request_key, id) ∷ []) store)
unfolding after_puts bytes_eq
put-IsStored s pending id store h =
    let puts : List (Bytes × Bytes) = (request_key, id) ∷ [] in
    record {
      access_token = find-put_all s.account access puts store ∙ h.access_token;
      refresh_token = find-put_all s.account refresh puts store ∙ h.refresh_token;
      access_time = find-put_all s.account access_exp puts store ∙ h.access_time;
      refresh_time = find-put_all s.account refresh_exp puts store ∙ h.refresh_time;
      session_id = find-put_all s.account session_key puts store ∙ h.session_id;
      request = find-put_all s.account request_key puts store;
    }

begin_refresh-Begun :
    (s : TokenSession) (m : TokenManager) (now : ℕ)
    → Begun s (begin_refresh true now (adopt true s m).0)
unfolding begin_refresh adopt persist settle apply_atomically
begin_refresh-Begun s m now = record {
  in_flight = refl;
  request = refl;
  named = refl;
  stored = put-IsStored s none _ (adopt true s m).0.store (adopt-IsStored s m);
}

in_flight_again :
    (m : TokenManager) (accepts : Bool) (now : ℕ)
    → m.refresh_in_flight ≡ true
    → is_empty m.refresh_request_id ≡ false
    → begin_refresh accepts now m ≡ (m, m.refresh_request_id)
unfolding begin_refresh
in_flight_again m accepts now f e = ground (arith, f, e)

-- A refresh that has begun, with its id stored, keeps its id until it is completed: after a
-- suspension, and also after a restart that loads the account on the same store, a further
-- `begin_refresh` gives the same id and changes nothing, at any time and whether or not the store
-- accepts changes. The session is one that can be stored, and its refresh token has not expired at
-- the time of the load.
pub begin_refresh_again :
    (s : TokenSession) (m : TokenManager) (accepts : Bool) (now later skew : ℕ)
    → IsStorable s
    → later < s.refresh_expire_at
    → let r = begin_refresh true now (adopt true s m).0 in
      let l = (load_from_store accepts s.account later (new r.0.store skew)).0 in
      (begin_refresh accepts later (suspend_refresh r.0) ≡ r)
      × ((begin_refresh accepts later l ≡ (l, r.1)) × (l.session ≡ s))
unfolding suspend_refresh new
begin_refresh_again s m accepts now later skew k h =
    let r = begin_refresh true now (adopt true s m).0 in
    let b = begin_refresh-Begun s m now in
    let fresh = new r.0.store skew in
    let l = (load_from_store accepts s.account later fresh).0 in
    let e : l ≡ with_pending (some r.1) (record fresh { session = s }) =
      ap (λ (x : TokenManager × Bool). x.0)
        (load_from_store-IsStored s (some r.1) accepts later fresh k b.stored h) in
    let flight : l.refresh_in_flight ≡ true =
      ap (λ (x : TokenManager). x.refresh_in_flight) e ∙ ground (arith, b.named) in
    let id : l.refresh_request_id ≡ r.1 =
      ap (λ (x : TokenManager). x.refresh_request_id) e ∙ ground (arith, b.named) in
    let session : l.session ≡ s =
      ap (λ (x : TokenManager). x.session) e ∙ ground (arith, b.named) in
    (
      in_flight_again r.0 accepts later b.in_flight
            (ap (λ (x : Bytes). is_empty x) b.request ∙ b.named)
          ∙ ap (λ (x : Bytes). (r.0, x)) b.request,
      (
        in_flight_again l accepts later flight (ap (λ (x : Bytes). is_empty x) id ∙ b.named)
            ∙ ap (λ (x : Bytes). (l, x)) id,
        session,
      ),
    )
