-- ===== src/Server/AuthTable/History.antt =====
-- auth_refresh_history: a hash that was rotated away stays there, and is no row's refresh hash.
use jitong_app.Base.{
  ℕ, ◌≡◌, refl, Bool, true, false, none, some, List, [], ◌∷◌, ◌++◌, Bytes, bytes_eq, bytes_eq_iff,
  count_of, arith,
}
use jitong_app.Server.AuthTable.{
  AuthSession, Row, Used, Db, Sqlite, c_str, select, update, any, insert_session, is_current,
  clashes, renew, rotate_refresh_token, revoke, in_family, family_of_used, revoke_token_family,
  revoke_where, used_row,
}
use jitong_app.Server.AuthTable.Unique.{Apart, update_none}

abbrev pub has_refresh : Bytes → AuthSession → Bool
has_refresh hash s = bytes_eq s.refresh_hash hash

-- The hash was a refresh hash of the family, and is none now.
pub record IsSpent (hash family : Bytes) (d : Db) : Type 0 where
  pub used : family_of_used hash d.history ≡ some family
  pub unused : select (has_refresh hash) d.sessions ≡ none

family_of_used-append :
    (hash : Bytes) (us vs : List Used) (f : Bytes)
    → family_of_used hash us ≡ some f
    → family_of_used hash (us ++ vs) ≡ some f
family_of_used-append hash [] vs f e = cc
family_of_used-append hash (u ∷ us) vs f e = ground (arith, family_of_used-append hash us vs f)

pub family_of_used-append_new :
    (hash : Bytes) (us : List Used) (u : Used)
    → any (λ (x : Used). bytes_eq x.token_hash hash) us ≡ false
    → u.token_hash ≡ hash
    → family_of_used hash (us ++ u ∷ []) ≡ some u.family_id
family_of_used-append_new hash [] u n e = ground (arith, bytes_eq_iff u.token_hash hash)
family_of_used-append_new hash (x ∷ us) u n e =
    let rest : any (λ (y : Used). bytes_eq y.token_hash hash) us ≡ false = ground arith in
    ground (arith, family_of_used-append_new hash us u rest e)

select-append :
    (p : AuthSession → Bool) (x : Row) (rows : List Row)
    → p x.session ≡ false
    → select p rows ≡ none
    → select p (rows ++ x ∷ []) ≡ none
unfolding select
select-append p x [] n e = ground arith
select-append p x (r ∷ rows) n e = ground (arith, select-append p x rows n)

-- An update that gives no row the property leaves no row with it.
select-update :
    (p w : AuthSession → Bool) (change : Row → Row) (rows : List Row)
    → ((r : Row) → p r.session ≡ false → p (change r).session ≡ false)
    → select p rows ≡ none
    → select p (update w change rows) ≡ none
unfolding select update
select-update p w change [] k e = refl
select-update p w change (r ∷ rows) k e = ground (arith, k r, select-update p w change rows k)

module _ (hash family : Bytes) where
  pub insert_session-IsSpent :
      (q : Sqlite) (new : AuthSession) (d : Db)
      → bytes_eq new.refresh_hash hash ≡ false
      → IsSpent hash family d
      → IsSpent hash family (insert_session q new d).0
  unfolding insert_session
  insert_session-IsSpent q new d n h = ground (
    arith,
    select-append (has_refresh hash)
        (record { session = new; created_at = q.stamp; last_used_at = q.stamp }) d.sessions,
  )

  pub revoke_where-IsSpent :
      (q : Sqlite) (p : AuthSession → Bool) (d : Db)
      → IsSpent hash family d
      → IsSpent hash family (revoke_where q p d)
  unfolding revoke_where
  revoke_where-IsSpent q p d h =
      ground (arith, select-update (has_refresh hash) p revoke d.sessions (λ r n. n))

  pub revoke_token_family-IsSpent :
      (q : Sqlite) (other : Bytes) (d : Db)
      → IsSpent hash family d
      → IsSpent hash family (revoke_token_family q other d).0
  unfolding revoke_token_family
  revoke_token_family-IsSpent q other d h =
      ground
        (arith, select-update (has_refresh hash) (in_family other) revoke d.sessions (λ r n. n))

  pub rotate_refresh_token-IsSpent :
      (q : Sqlite) (old : AuthSession) (old_hash access refresh : Bytes) (au ru : ℕ) (d : Db)
      → bytes_eq (c_str refresh) hash ≡ false
      → IsSpent hash family d
      → IsSpent hash family (rotate_refresh_token q old old_hash access au refresh ru d).0
  unfolding rotate_refresh_token
  rotate_refresh_token-IsSpent q old old_hash access refresh au ru d n h = ground (
    arith,
    select-update (has_refresh hash) (is_current old old_hash) (renew q.stamp access au refresh ru)
        d.sessions (λ r _. n),
    family_of_used-append hash d.history (used_row q.stamp old old_hash ∷ []) family h.used,
  )

-- The row that a rotation renews, found by its refresh hash.
module _ (old : AuthSession) (old_hash : Bytes) where
  abbrev pub current : AuthSession → Bool
  current = is_current old old_hash

  abbrev pub hashed : AuthSession → Bool
  hashed = has_refresh (c_str old_hash)

  -- No current row where no row clashes with one that has the hash.
  pub none_current :
      (h : Row) (rows : List Row)
      → hashed h.session ≡ true
      → any (clashes h.session) rows ≡ false
      → (count_of (λ (r : Row). current r.session) rows ≡ 0) × (select hashed rows ≡ none)
  unfolding select
  none_current h [] e n = (refl, refl)
  none_current h (r ∷ rows) e n =
      let rest : any (clashes h.session) rows ≡ false = ground arith in
      ground (
        arith,
        none_current h rows e rest,
        bytes_eq_iff r.session.refresh_hash (c_str old_hash),
        bytes_eq_iff h.session.refresh_hash (c_str old_hash),
        bytes_eq_iff r.session.refresh_hash h.session.refresh_hash,
      )

  module _ (stamp au ru : ℕ) (access refresh : Bytes) where
    abbrev pub renewed : Row → Row
    renewed = renew stamp access au refresh ru

    pub select-update-hashed :
        (rows : List Row)
        → Apart rows
        → count_of (λ (r : Row). current r.session) rows ≡ 1
        → bytes_eq (c_str refresh) (c_str old_hash) ≡ false
        → select hashed (update current renewed rows) ≡ none
    unfolding select update
    select-update-hashed [] u c n = refl
    select-update-hashed (r ∷ rows) u c n = ground (
      arith,
      none_current r rows,
      update_none current stamp au ru access refresh renewed rows,
      select-update-hashed rows u.1,
    )
