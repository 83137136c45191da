-- ===== src/Account/TokenManager/Restore.antt =====
-- TokenManager: a stored session comes back after a restart.
use jitong_app.Base.{
  ℕ, ◌<◌, ◌≤◌, ◌≡◌, refl, ap, ◌∙◌, Bool, true, false, Option, none, some, [], ◌∷◌, Bytes, bytes_eq,
  is_empty, if◌then◌else◌, arith,
}
use jitong_app.Base.Dict.{find, bytes_Eq}
use jitong_app.Account.TokenManager.Decimal.{to_string, parse_positive_int-to_string}
use jitong_app.Account.TokenManager.{
  Store, TokenSession, TokenManager, no_session, is_valid, new, access, refresh, access_exp,
  refresh_exp, session_key, request_key, key_of, put_all, apply_atomically, puts_of, persist,
  settle, adopt, revoke_family, refresh_expired, read_session, with_pending, restore_pending,
  load_from_store,
}
use jitong_app.Account.TokenManager.Store.{after_puts, after_removes, find-put_all, find-remove_all}

-- A session that can be stored and read back: nothing is empty, and the times are positive 64-bit
-- numbers.
pub record IsStorable (s : TokenSession) : Type 0 where
  pub access_token : is_empty s.access_token ≡ false
  pub refresh_token : is_empty s.refresh_token ≡ false
  pub session_id : is_empty s.session_id ≡ false
  pub access_low : 0 < s.access_expire_at
  pub access_high : s.access_expire_at ≤ 9223372036854775807
  pub refresh_low : 0 < s.refresh_expire_at
  pub refresh_high : s.refresh_expire_at ≤ 9223372036854775807

-- The store holds the session, and `pending` under the refresh's key.
pub record IsStored (s : TokenSession) (pending : Option Bytes) (store : Store) : Type 0 where
  pub access_token : find (key_of s.account access) store ≡ some s.access_token
  pub refresh_token : find (key_of s.account refresh) store ≡ some s.refresh_token
  pub access_time : find (key_of s.account access_exp) store ≡ some (to_string s.access_expire_at)
  pub refresh_time :
      find (key_of s.account refresh_exp) store ≡ some (to_string s.refresh_expire_at)
  pub session_id : find (key_of s.account session_key) store ≡ some s.session_id
  pub request : find (key_of s.account request_key) store ≡ pending

pub adopt-IsStored :
    (s : TokenSession) (m : TokenManager) → IsStored s none (adopt true s m).0.store
unfolding adopt persist settle apply_atomically after_puts after_removes bytes_eq
adopt-IsStored s m = record {
  access_token = found access;
  refresh_token = found refresh;
  access_time = found access_exp;
  refresh_time = found refresh_exp;
  session_id = found session_key;
  request = found request_key;
}
  where
    found :
        (suffix : Bytes)
        → find (key_of s.account suffix) (adopt true s m).0.store
          ≡ after_removes suffix
              (request_key ∷ [])
              (after_puts suffix (puts_of s) (find (key_of s.account suffix) m.store))
    found suffix =
        find-remove_all s.account suffix (request_key ∷ []) (put_all s.account (puts_of s) m.store)
        ∙ ap (after_removes suffix (request_key ∷ []))
            (find-put_all s.account suffix (puts_of s) m.store)

read_session-IsStored :
    (s : TokenSession) (pending : Option Bytes) (store : Store)
    → IsStorable s
    → IsStored s pending store
    → read_session s.account store ≡ some s
unfolding read_session
read_session-IsStored s pending store k h =
    let e1 = parse_positive_int-to_string s.access_expire_at k.access_low k.access_high in
    let e2 = parse_positive_int-to_string s.refresh_expire_at k.refresh_low k.refresh_high in
    rw
      (
        h.access_token, h.refresh_token, h.access_time, h.refresh_time, h.session_id,
        k.access_token, k.refresh_token, k.session_id, e1, e2,
      )
      refl

-- The rest of `loadFromStore`, once the record is read.
abbrev finish_load : Bool → ℕ → TokenSession → TokenManager → TokenManager × Bool
finish_load accepts now s loaded =
    if refresh_expired now loaded
    then ((revoke_family accepts loaded).0, false)
    else (loaded, is_valid s)

load_from_store-read :
    (accepts : Bool) (now : ℕ) (s : TokenSession) (m : TokenManager)
    → read_session s.account m.store ≡ some s
    → load_from_store accepts s.account now m
      ≡ finish_load accepts now s (restore_pending (record m { session = s }))
unfolding load_from_store
load_from_store-read accepts now s m e =
    ap
      (λ (o : Option TokenSession). elim o as (λ _. TokenManager × Bool) [
        | none ↦ ((revoke_family accepts (record m { session = no_session s.account })).0, false)
        | some t ↦ finish_load accepts now t (restore_pending (record m { session = t }))
      ])
      e

restore_pending_lem :
    (s : TokenSession) (pending : Option Bytes) (m : TokenManager)
    → find (key_of s.account request_key) m.store ≡ pending
    → restore_pending (record m { session = s }) ≡ with_pending pending (record m { session = s })
unfolding restore_pending
restore_pending_lem s pending m e =
    ap (λ (o : Option Bytes). with_pending o (record m { session = s })) e

session-with_pending :
    (pending : Option Bytes) (m : TokenManager) → (with_pending pending m).session ≡ m.session
session-with_pending none m = refl
session-with_pending (some id) m = ground arith

finish_load_lem :
    (accepts : Bool) (now : ℕ) (s : TokenSession) (m : TokenManager)
    → IsStorable s
    → now < s.refresh_expire_at
    → m.session ≡ s
    → finish_load accepts now s m ≡ (m, true)
unfolding refresh_expired
finish_load_lem accepts now s m k later e =
    let t : m.session.refresh_expire_at ≡ s.refresh_expire_at =
      ap (λ (x : TokenSession). x.refresh_expire_at) e in
    ground (arith, later, k.access_token, k.refresh_token, t)

pub load_from_store-IsStored :
    (s : TokenSession) (pending : Option Bytes) (accepts : Bool) (now : ℕ) (m : TokenManager)
    → IsStorable s
    → IsStored s pending m.store
    → now < s.refresh_expire_at
    → load_from_store accepts s.account now m
      ≡ (with_pending pending (record m { session = s }), true)
load_from_store-IsStored s pending accepts now m k h later =
    let m1 : TokenManager = record m { session = s } in
    load_from_store-read accepts now s m (read_session-IsStored s pending m.store k h)
    ∙ ap (finish_load accepts now s) (restore_pending_lem s pending m h.request)
    ∙ finish_load_lem accepts now s (with_pending pending m1) k later
        (session-with_pending pending m1)

-- A session that was adopted, with its record stored, comes back when a new manager on the same
-- store loads the account: the load succeeds, the session is the adopted one, and no refresh is
-- pending. The session has no empty field, its times are positive 64-bit numbers, and its refresh
-- token has not expired at the time of the load.
pub load_from_store-adopt :
    (s : TokenSession) (m : TokenManager) (accepts : Bool) (now skew : ℕ)
    → IsStorable s
    → now < s.refresh_expire_at
    → let stored = (adopt true s m).0.store in
      let fresh = new stored skew in
      load_from_store accepts s.account now fresh ≡ (record fresh { session = s }, true)
unfolding new
load_from_store-adopt s m accepts now skew k later =
    load_from_store-IsStored s none accepts now (new (adopt true s m).0.store skew) k
      (adopt-IsStored s m) later
