-- ===== src/Account/TokenManager.antt =====
-- client_core/include/client_core/TokenManager.h and src/account/TokenManager.cpp. The clock is the
-- argument `now`, in seconds. The store is an association list; `accepts` says whether this call of
-- applyAtomically succeeds, and a call that fails leaves the store as it was, as ITokenStore demands.
pub mod Decimal
pub mod Store
pub mod Restore
pub mod Flight
pub mod Stale
use jitong_app.Base.{
  ℕ, ◌+◌, ◌%◌, Bool, true, false, not, ◌&&◌, ◌||◌, Option, none, some, List, [], ◌∷◌, ◌++◌, Bytes,
  codes, is_empty, leb, ltb, ◌==◌, ◌>>=◌, if◌then◌else◌,
}
use jitong_app.Base.Dict.{find, put, erase, bytes_Eq}
use jitong_app.Account.TokenManager.Decimal.{to_string, parse_positive_int}

abbrev pub Store : Type 0
Store = List (Bytes × Bytes)

pub record TokenSession : Type 0 where
  pub access_token : Bytes
  pub refresh_token : Bytes
  pub access_expire_at : ℕ
  pub refresh_expire_at : ℕ
  pub session_id : Bytes
  pub account : Bytes

abbrev pub is_valid : TokenSession → Bool
is_valid s = not (is_empty s.access_token) && not (is_empty s.refresh_token)

-- TokenSession{} with its account
abbrev pub no_session : Bytes → TokenSession
no_session account = record {
  access_token = [];
  refresh_token = [];
  access_expire_at = 0;
  refresh_expire_at = 0;
  session_id = [];
  account = account;
}

pub record TokenManager : Type 0 where
  pub store : Store
  pub refresh_skew : ℕ
  pub session : TokenSession
  pub refresh_in_flight : Bool
  pub refresh_request_id : Bytes
  pub request_seq : ℕ

unfoldable pub new : Store → ℕ → TokenManager
new store skew = record {
  store = store;
  refresh_skew = skew;
  session = no_session [];
  refresh_in_flight = false;
  refresh_request_id = [];
  request_seq = 0;
}

abbrev pub access : Bytes
access = codes "access"

abbrev pub refresh : Bytes
refresh = codes "refresh"

abbrev pub access_exp : Bytes
access_exp = codes "access_exp"

abbrev pub refresh_exp : Bytes
refresh_exp = codes "refresh_exp"

abbrev pub session_key : Bytes
session_key = codes "session_id"

abbrev pub request_key : Bytes
request_key = codes "refresh_request_id"

unfoldable pub prefix : Bytes → Bytes
prefix account = codes "tok:" ++ account ++ codes ":"

abbrev pub key_of : Bytes → Bytes → Bytes
key_of account suffix = prefix account ++ suffix

-- The changes of one applyAtomically, the puts first; their keys are given by their suffixes.
unfoldable pub put_all : Bytes → List (Bytes × Bytes) → Store → Store
put_all account [] store = store
put_all account ((suffix, value) ∷ puts) store =
    put_all account puts (put (key_of account suffix) value store)

unfoldable pub remove_all : Bytes → List Bytes → Store → Store
remove_all account [] store = store
remove_all account (suffix ∷ removes) store =
    remove_all account removes (erase (key_of account suffix) store)

unfoldable pub apply_atomically :
    Bool → Bytes → List (Bytes × Bytes) → List Bytes → Store → Store × Bool
unfolding put_all remove_all
apply_atomically accepts account puts removes store =
    if accepts
    then (remove_all account removes (put_all account puts store), true)
    else (store, false)

unfoldable pub clear_memory : TokenManager → TokenManager
clear_memory m = record m {
  session = no_session m.session.account;
  refresh_in_flight = false;
  refresh_request_id = [];
}

unfoldable pub revoke_family : Bool → TokenManager → TokenManager × Bool
unfolding apply_atomically clear_memory
revoke_family accepts m =
    let r =
      apply_atomically accepts m.session.account []
        (access ∷ refresh ∷ access_exp ∷ refresh_exp ∷ session_key ∷ request_key ∷ []) m.store in
    (clear_memory (record m { store = r.0 }), r.1)

abbrev pub puts_of : TokenSession → List (Bytes × Bytes)
puts_of s =
    (access, s.access_token)
    ∷ (refresh, s.refresh_token)
    ∷ (access_exp, to_string s.access_expire_at)
    ∷ (refresh_exp, to_string s.refresh_expire_at)
    ∷ (session_key, s.session_id)
    ∷ []

unfoldable pub persist : Bool → Bool → TokenManager → TokenManager × Bool
unfolding apply_atomically
persist accepts clear_pending m =
    let r =
      apply_atomically accepts m.session.account (puts_of m.session)
        (if clear_pending then request_key ∷ [] else []) m.store in
    (record m { store = r.0 }, r.1)

-- The end of `adopt` and `rotate`: a session that cannot be stored is given up for the old one.
unfoldable pub settle : TokenSession → TokenManager × Bool → TokenManager × Bool
settle previous r =
    if r.1
    then (record r.0 { refresh_in_flight = false; refresh_request_id = [] }, true)
    else (record r.0 { session = previous }, false)

unfoldable pub adopt : Bool → TokenSession → TokenManager → TokenManager × Bool
unfolding persist settle
adopt accepts session m = settle m.session (persist accepts true (record m { session = session }))

unfoldable pub rotate : Bool → Bytes → Bytes → ℕ → ℕ → Bytes → TokenManager → TokenManager × Bool
unfolding persist settle
rotate accepts new_access new_refresh access_expire_at refresh_expire_at session_id m =
    let s = m.session in
    let session : TokenSession = record s {
      access_token = new_access;
      refresh_token = new_refresh;
      access_expire_at = access_expire_at;
      refresh_expire_at = refresh_expire_at;
      session_id = if is_empty session_id then s.session_id else session_id;
    } in
    settle s (persist accepts true (record m { session = session }))

unfoldable pub access_needs_refresh : ℕ → TokenManager → Bool
access_needs_refresh now m =
    is_valid m.session && leb m.session.access_expire_at (now + m.refresh_skew)

unfoldable pub access_usable : ℕ → TokenManager → Bool
access_usable now m = is_valid m.session && ltb (now + m.refresh_skew) m.session.access_expire_at

unfoldable pub refresh_expired : ℕ → TokenManager → Bool
refresh_expired now m = m.session.refresh_expire_at == 0 || leb m.session.refresh_expire_at now

-- The record of an account as `loadFromStore` accepts it: all five fields are there and make sense.
unfoldable pub read_session : Bytes → Store → Option TokenSession
read_session account store = do
  acc ← find (key_of account access) store
  ref ← find (key_of account refresh) store
  acc_exp ← find (key_of account access_exp) store
  ref_exp ← find (key_of account refresh_exp) store
  sess ← find (key_of account session_key) store
  complete ← (if is_empty acc || (is_empty ref || is_empty sess) then none else some true)
  access_expire_at ← parse_positive_int acc_exp
  refresh_expire_at ← parse_positive_int ref_exp
  some (record {
    access_token = acc;
    refresh_token = ref;
    access_expire_at = access_expire_at;
    refresh_expire_at = refresh_expire_at;
    session_id = sess;
    account = account;
  })

-- The request id that a refresh left in the store.
abbrev pub with_pending : Option Bytes → TokenManager → TokenManager
with_pending none m = m
with_pending (some id) m =
    if is_empty id then m else record m { refresh_request_id = id; refresh_in_flight = true }

unfoldable pub restore_pending : TokenManager → TokenManager
restore_pending m = with_pending (find (key_of m.session.account request_key) m.store) m

unfoldable pub load_from_store : Bool → Bytes → ℕ → TokenManager → TokenManager × Bool
unfolding revoke_family read_session restore_pending
load_from_store accepts account now m =
    let cleared : TokenManager = record m { session = no_session account } in
    elim (read_session account m.store) [
      | none ↦ ((revoke_family accepts cleared).0, false)
      | some session ↦
          let loaded = restore_pending (record m { session = session }) in
          if refresh_expired now loaded
          then ((revoke_family accepts loaded).0, false)
          else (loaded, is_valid session)
    ]

abbrev pub u64 : ℕ → ℕ
u64 n = n % 18446744073709551616

unfoldable pub begin_refresh : Bool → ℕ → TokenManager → TokenManager × Bytes
unfolding apply_atomically
begin_refresh accepts now m =
    if m.refresh_in_flight && not (is_empty m.refresh_request_id)
    then (m, m.refresh_request_id)
    else let id =
        codes "rf-"
        ++ m.session.account
        ++ codes "-"
        ++ m.session.session_id
        ++ codes "-"
        ++ to_string (u64 (m.request_seq + 1))
        ++ codes "-"
        ++ to_string now in
      let r = apply_atomically accepts m.session.account ((request_key, id) ∷ []) [] m.store in
      if r.1
      then (
        record m {
          store = r.0;
          request_seq = u64 (m.request_seq + 1);
          refresh_request_id = id;
          refresh_in_flight = true;
        },
        id,
      )
      else (m, [])

unfoldable pub complete_refresh : Bool → TokenManager → TokenManager × Bool
unfolding apply_atomically
complete_refresh accepts m =
    let r = apply_atomically accepts m.session.account [] (request_key ∷ []) m.store in
    if r.1
    then (record m { store = r.0; refresh_in_flight = false; refresh_request_id = [] }, true)
    else (m, false)

unfoldable pub suspend_refresh : TokenManager → TokenManager
suspend_refresh m = m

unfoldable pub cancel_refresh : Bool → TokenManager → TokenManager × Bool
unfolding complete_refresh
cancel_refresh accepts m = complete_refresh accepts m
