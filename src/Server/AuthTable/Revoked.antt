-- ===== src/Server/AuthTable/Revoked.antt =====
-- A family whose rows are all revoked, and a refresh hash that is in the history.
use jitong_app.Base.{
  ℕ, ◌≡◌, Bool, true, false, not, ◌&&◌, none, some, List, [], ◌∷◌, ◌++◌, Bytes, bytes_eq,
  bytes_eq_iff, arith,
}
use jitong_app.Server.AuthTable.{
  AuthSession, Row, Db, Sqlite, c_str, select, update, insert_session, is_current, renew,
  rotate_refresh_token, revoke, in_family, revoke_token_family, revoke_where,
}

-- Every row of the family is revoked.
abbrev pub IsRevoked : Bytes → List Row → Type 0
IsRevoked family [] = Unit
IsRevoked family (r ∷ rows) =
    (bytes_eq r.session.family_id family && not r.session.revoked ≡ false) × IsRevoked family rows

-- No row has the hash as its refresh hash.
abbrev pub IsUnused : Bytes → List Row → Type 0
IsUnused hash rows = select (λ s. bytes_eq s.refresh_hash hash) rows ≡ none

module _ (family : Bytes) where
  append-IsRevoked :
      (x : Row) (rows : List Row)
      → bytes_eq x.session.family_id family ≡ false
      → IsRevoked family rows
      → IsRevoked family (rows ++ x ∷ [])
  append-IsRevoked x [] n h = (ground arith, tt)
  append-IsRevoked x (r ∷ rows) n h = (h.0, append-IsRevoked x rows n h.1)

  pub insert_session-IsRevoked :
      (q : Sqlite) (new : AuthSession) (d : Db)
      → bytes_eq new.family_id family ≡ false
      → IsRevoked family d.sessions
      → IsRevoked family (insert_session q new d).0.sessions
  unfolding insert_session
  insert_session-IsRevoked q new d n h = ground (
    arith,
    append-IsRevoked (record { session = new; created_at = q.stamp; last_used_at = q.stamp })
        d.sessions,
  )

  revoke-IsRevoked :
      (p : AuthSession → Bool) (rows : List Row)
      → IsRevoked family rows
      → IsRevoked family (update p revoke rows)
  unfolding update
  revoke-IsRevoked p [] h = tt
  revoke-IsRevoked p (r ∷ rows) h = ground (arith, revoke-IsRevoked p rows h.1)

  pub revoke_where-IsRevoked :
      (q : Sqlite) (p : AuthSession → Bool) (d : Db)
      → IsRevoked family d.sessions
      → IsRevoked family (revoke_where q p d).sessions
  unfolding revoke_where
  revoke_where-IsRevoked q p d h = ground (arith, revoke-IsRevoked p d.sessions)

  pub revoke_token_family-IsRevoked :
      (q : Sqlite) (other : Bytes) (d : Db)
      → IsRevoked family d.sessions
      → IsRevoked family (revoke_token_family q other d).0.sessions
  unfolding revoke_token_family
  revoke_token_family-IsRevoked q other d h =
      ground (arith, revoke-IsRevoked (in_family other) d.sessions)

  renew-IsRevoked :
      (p : AuthSession → Bool) (stamp au ru : ℕ) (access refresh : Bytes) (rows : List Row)
      → IsRevoked family rows
      → IsRevoked family (update p (renew stamp access au refresh ru) rows)
  unfolding update
  renew-IsRevoked p stamp au ru access refresh [] h = tt
  renew-IsRevoked p stamp au ru access refresh (r ∷ rows) h =
      ground (arith, renew-IsRevoked p stamp au ru access refresh rows h.1)

  pub rotate_refresh_token-IsRevoked :
      (q : Sqlite) (old : AuthSession) (old_hash access refresh : Bytes) (au ru : ℕ) (d : Db)
      → IsRevoked family d.sessions
      → IsRevoked family (rotate_refresh_token q old old_hash access au refresh ru d).0.sessions
  unfolding rotate_refresh_token
  rotate_refresh_token-IsRevoked q old old_hash access refresh au ru d h =
      ground
        (arith, renew-IsRevoked (is_current old old_hash) q.stamp au ru access refresh d.sessions)

  -- A row that a query finds and that is of the family is revoked.
  pub select-revoked :
      (p : AuthSession → Bool) (rows : List Row) (s : AuthSession)
      → IsRevoked family rows
      → select p rows ≡ some s
      → s.family_id ≡ family
      → s.revoked ≡ true
  unfolding select
  select-revoked p [] s h e f = cc
  select-revoked p (r ∷ rows) s h e f =
      ground (arith, select-revoked p rows s h.1, bytes_eq_iff r.session.family_id family)

revoke_family-IsRevoked :
    (family : Bytes) (rows : List Row)
    → IsRevoked (c_str family) (update (in_family family) revoke rows)
unfolding update
revoke_family-IsRevoked family [] = tt
revoke_family-IsRevoked family (r ∷ rows) = ground (arith, revoke_family-IsRevoked family rows)

-- The revocation of a family revokes all its rows.
pub revoke_token_family_lem :
    (q : Sqlite) (family : Bytes) (d : Db)
    → q.prepares_revoke ≡ true
    → q.runs_revoke ≡ true
    → IsRevoked (c_str family) (revoke_token_family q family d).0.sessions
unfolding revoke_token_family
revoke_token_family_lem q family d a b = ground (arith, revoke_family-IsRevoked family d.sessions)
