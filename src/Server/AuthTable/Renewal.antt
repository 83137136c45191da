-- ===== src/Server/AuthTable/Renewal.antt =====
-- What a rotation that succeeds leaves: the old hash is spent, and the new access hash finds the
-- renewed row. What an insertion leaves: its access hash finds the new row.
use jitong_app.Base.{
  ℕ, ◌+◌, ◌≡◌, refl, Bool, true, false, some, List, [], ◌∷◌, ◌++◌, Bytes, bytes_eq, bytes_eq_iff,
  bytes_eq_refl, count_of, arith,
}
use jitong_app.Server.AuthTable.{
  AuthSession, Row, Used, Db, Sqlite, c_str, select, update, any, insert_session, clashes,
  rotate_refresh_token, used_row,
}
use jitong_app.Server.AuthTable.Unique.{Apart, is_taken}
use jitong_app.Server.AuthTable.History.{
  IsSpent, family_of_used-append_new, current, hashed, none_current, renewed, select-update-hashed,
}

abbrev pub has_access : Bytes → AuthSession → Bool
has_access hash s = bytes_eq s.access_hash hash

abbrev pub renewed_session : AuthSession → Bytes → ℕ → Bytes → ℕ → AuthSession
renewed_session s access au refresh ru = record s {
  access_hash = c_str access;
  access_expires_at = au;
  refresh_hash = c_str refresh;
  refresh_expires_at = ru;
  generation = s.generation + 1;
}

module _ (old : AuthSession) (old_hash access refresh : Bytes) (stamp au ru : ℕ) where
  abbrev found : AuthSession → Bool
  found = has_access (c_str access)

  select-update_found :
      (rows : List Row) (s : AuthSession)
      → Apart rows
      → count_of (λ (r : Row). current old old_hash r.session) rows ≡ 1
      → any (is_taken (current old old_hash) stamp au ru access refresh) rows ≡ false
      → select (hashed old old_hash) rows ≡ some s
      → select found
          (update (current old old_hash) (renewed old old_hash stamp au ru access refresh) rows)
        ≡ some (renewed_session s access au refresh ru)
  unfolding select update
  select-update_found [] s u c t e = cc
  select-update_found (r ∷ rows) s u c t e = ground (
    arith,
    none_current old old_hash r rows,
    bytes_eq_refl (c_str access),
    select-update_found rows s u.1,
  )

module _ (q : Sqlite) (old : AuthSession) (old_hash access refresh : Bytes) (au ru : ℕ)
    (d : Db) where
  abbrev rotation : Db × Bool
  rotation = rotate_refresh_token q old old_hash access au refresh ru d

  pub rotate_refresh_token-IsSpent_new :
      Apart d.sessions
      → bytes_eq (c_str refresh) (c_str old_hash) ≡ false
      → rotation.1 ≡ true
      → IsSpent (c_str old_hash) (c_str old.family_id) rotation.0
  unfolding rotate_refresh_token
  rotate_refresh_token-IsSpent_new u n ok =
      let last : Used = used_row q.stamp old old_hash in
      record {
        used = ground (arith, family_of_used-append_new (c_str old_hash) d.history last);
        unused =
            ground
              (arith, select-update-hashed old old_hash q.stamp au ru access refresh d.sessions u);
      }

  pub select-rotate_refresh_token :
      (s : AuthSession)
      → Apart d.sessions
      → select (hashed old old_hash) d.sessions ≡ some s
      → rotation.1 ≡ true
      → select (has_access (c_str access)) rotation.0.sessions
        ≡ some (renewed_session s access au refresh ru)
  unfolding rotate_refresh_token
  select-rotate_refresh_token s u e ok =
      ground (arith, select-update_found old old_hash access refresh q.stamp au ru d.sessions s u)

select-append_last :
    (new : AuthSession) (x : Row) (rows : List Row)
    → x.session ≡ new
    → any (clashes new) rows ≡ false
    → select (has_access new.access_hash) (rows ++ x ∷ []) ≡ some new
unfolding select
select-append_last new x [] e n = ground (arith, bytes_eq_iff x.session.access_hash new.access_hash)
select-append_last new x (r ∷ rows) e n =
    let rest : any (clashes new) rows ≡ false = ground arith in
    ground (arith, select-append_last new x rows e rest)

pub select-insert_session :
    (q : Sqlite) (new : AuthSession) (d : Db)
    → (insert_session q new d).1 ≡ true
    → select (has_access new.access_hash) (insert_session q new d).0.sessions ≡ some new
unfolding insert_session
select-insert_session q new d ok =
    let x : Row = record { session = new; created_at = q.stamp; last_used_at = q.stamp } in
    ground (arith, select-append_last new x d.sessions refl)
