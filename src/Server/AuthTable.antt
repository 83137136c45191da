-- ===== src/Server/AuthTable.antt =====
-- im_server/src/db/Database.cpp, the part on auth_sessions and auth_refresh_history, with their
-- tables. A table is its rows in the order of insertion. A statement's text parameter ends at its
-- first zero byte (sqlite3_bind_text with the length -1). The flags of `Sqlite` say which statements
-- sqlite prepares, runs and commits without an error of its own; the tables' UNIQUE constraints
-- are modelled. The INTEGER columns do not overflow.

pub mod Unique
pub mod Revoked
pub mod History
pub mod Renewal
use jitong_app.Base.{
  ℕ, zero, suc, ◌+◌, Bool, true, false, not, ◌&&◌, ◌||◌, Option, none, some, List, [], ◌∷◌, ◌++◌,
  Bytes, bytes_eq, ◌==◌, if◌then◌else◌, count_of, map,
}

pub record AuthSession : Type 0 where
  pub session_id : Bytes
  pub family_id : Bytes
  pub user_id : ℕ
  pub device_id : Bytes
  pub access_hash : Bytes
  pub access_expires_at : ℕ
  pub refresh_hash : Bytes
  pub refresh_expires_at : ℕ
  pub generation : ℕ
  pub revoked : Bool

-- A row of auth_sessions: the columns of `AuthSession` and the two times.
pub record Row : Type 0 where
  pub session : AuthSession
  pub created_at : ℕ
  pub last_used_at : ℕ

-- A row of auth_refresh_history.
pub record Used : Type 0 where
  pub family_id : Bytes
  pub token_hash : Bytes
  pub generation : ℕ
  pub used_at : ℕ

pub record Db : Type 0 where
  pub sessions : List Row
  pub history : List Used

-- `stamp` is what std::time returns on the write thread.
pub record Sqlite : Type 0 where
  pub inserts : Bool
  pub finds : Bool
  pub rotates : Bool
  pub finds_used : Bool
  pub finds_user : Bool
  pub prepares_revoke : Bool
  pub runs_revoke : Bool
  pub stamp : ℕ

-- A C string ends at its first zero byte.
unfoldable pub c_str : Bytes → Bytes
c_str [] = []
c_str (zero ∷ s) = []
c_str (suc c ∷ s) = suc c ∷ c_str s

-- The first row that satisfies a WHERE clause.
unfoldable pub select : (AuthSession → Bool) → List Row → Option AuthSession
select p [] = none
select p (r ∷ rows) = if p r.session then some r.session else select p rows

abbrev pub update_row : (AuthSession → Bool) → (Row → Row) → Row → Row
update_row p change r = if p r.session then change r else r

unfoldable pub update : (AuthSession → Bool) → (Row → Row) → List Row → List Row
update p change [] = []
update p change (r ∷ rows) = update_row p change r ∷ update p change rows

abbrev pub any {ℓ} : {A : Type ℓ} → (A → Bool) → List A → Bool
any p [] = false
any p (x ∷ xs) = p x || any p xs

-- The UNIQUE columns of auth_sessions.
abbrev pub same_tokens : Bytes → Bytes → AuthSession → Bool
same_tokens access refresh s = bytes_eq s.access_hash access || bytes_eq s.refresh_hash refresh

abbrev pub clashes : AuthSession → Row → Bool
clashes new r =
    bytes_eq r.session.session_id new.session_id
    || same_tokens new.access_hash new.refresh_hash r.session

abbrev pub new_session : Bytes → Bytes → ℕ → Bytes → Bytes → ℕ → Bytes → ℕ → AuthSession
new_session sid fid user device access access_until refresh refresh_until = record {
  session_id = c_str sid;
  family_id = c_str fid;
  user_id = user;
  device_id = c_str device;
  access_hash = c_str access;
  access_expires_at = access_until;
  refresh_hash = c_str refresh;
  refresh_expires_at = refresh_until;
  generation = 1;
  revoked = false;
}

unfoldable pub insert_session : Sqlite → AuthSession → Db → Db × Bool
insert_session q new d =
    if q.inserts && not (any (clashes new) d.sessions)
    then (
      record d {
        sessions =
            d.sessions
            ++ (record { session = new; created_at = q.stamp; last_used_at = q.stamp }) ∷ [];
      },
      true,
    )
    else (d, false)

unfoldable pub create_auth_session :
    Sqlite → Bytes → Bytes → ℕ → Bytes → Bytes → ℕ → Bytes → ℕ → Db → Db × Bool
unfolding insert_session
create_auth_session q sid fid user device access access_until refresh refresh_until =
    insert_session q (new_session sid fid user device access access_until refresh refresh_until)

unfoldable pub find_by_access_hash : Sqlite → Bytes → Db → Option AuthSession
find_by_access_hash q access d =
    if q.finds then select (λ s. bytes_eq s.access_hash (c_str access)) d.sessions else none

unfoldable pub find_by_refresh_hash : Sqlite → Bytes → Db → Option AuthSession
find_by_refresh_hash q refresh d =
    if q.finds then select (λ s. bytes_eq s.refresh_hash (c_str refresh)) d.sessions else none

-- The WHERE clause of the rotation.
abbrev pub is_current : AuthSession → Bytes → AuthSession → Bool
is_current old old_hash s =
    bytes_eq s.session_id (c_str old.session_id)
    && (bytes_eq s.refresh_hash (c_str old_hash)
        && (s.generation == old.generation && not s.revoked))

abbrev pub renew : ℕ → Bytes → ℕ → Bytes → ℕ → Row → Row
renew stamp access access_until refresh refresh_until r = record r {
  session = record r.session {
    access_hash = c_str access;
    access_expires_at = access_until;
    refresh_hash = c_str refresh;
    refresh_expires_at = refresh_until;
    generation = r.session.generation + 1;
  };
  last_used_at = stamp;
}

abbrev pub used_row : ℕ → AuthSession → Bytes → Used
used_row stamp old old_hash = record {
  family_id = c_str old.family_id;
  token_hash = c_str old_hash;
  generation = old.generation;
  used_at = stamp;
}

-- The transaction: the old hash enters the history, then one row is renewed, or nothing changes.
unfoldable pub rotate_refresh_token :
    Sqlite → AuthSession → Bytes → Bytes → ℕ → Bytes → ℕ → Db → Db × Bool
rotate_refresh_token q old old_hash access access_until refresh refresh_until d =
    let current = is_current old old_hash in
    let is_taken : Row → Bool =
      λ r. not (current r.session) && same_tokens (c_str access) (c_str refresh) r.session in
    if q.rotates
      && (not (any (λ (u : Used). bytes_eq u.token_hash (c_str old_hash)) d.history)
          && (count_of (λ (r : Row). current r.session) d.sessions == 1
              && not (any is_taken d.sessions)))
    then (
      record {
        sessions =
            update current (renew q.stamp access access_until refresh refresh_until) d.sessions;
        history = d.history ++ used_row q.stamp old old_hash ∷ [];
      },
      true,
    )
    else (d, false)

abbrev pub family_of_used : Bytes → List Used → Option Bytes
family_of_used hash [] = none
family_of_used hash (u ∷ us) =
    if bytes_eq u.token_hash hash then some u.family_id else family_of_used hash us

unfoldable pub was_refresh_token_used : Sqlite → Bytes → Db → Option Bytes
was_refresh_token_used q refresh d =
    if q.finds_used then family_of_used (c_str refresh) d.history else none

abbrev pub revoke : Row → Row
revoke r = record r { session = record r.session { revoked = true } }

abbrev pub user_of : Option AuthSession → ℕ
user_of none = 0
user_of (some s) = s.user_id

abbrev pub in_family : Bytes → AuthSession → Bool
in_family family s = bytes_eq s.family_id (c_str family)

unfoldable pub revoke_token_family : Sqlite → Bytes → Db → Db × ℕ
revoke_token_family q family d =
    let user = if q.finds_user then user_of (select (in_family family) d.sessions) else 0 in
    if not q.prepares_revoke
    then (d, 0)
    else if q.runs_revoke
    then (record d { sessions = update (in_family family) revoke d.sessions }, user)
    else (d, user)

unfoldable pub revoke_where : Sqlite → (AuthSession → Bool) → Db → Db
revoke_where q p d =
    if q.prepares_revoke && q.runs_revoke
    then record d { sessions = update p revoke d.sessions }
    else d

unfoldable pub revoke_session : Sqlite → Bytes → Db → Db
unfolding revoke_where
revoke_session q sid = revoke_where q (λ s. bytes_eq s.session_id (c_str sid))

unfoldable pub revoke_all_user_sessions : Sqlite → ℕ → Db → Db
unfolding revoke_where
revoke_all_user_sessions q user = revoke_where q (λ s. s.user_id == user)
