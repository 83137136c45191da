-- ===== src/Server/AuthTable/Unique.antt =====
-- The UNIQUE columns of auth_sessions: no two rows share a session id, an access hash or a refresh
-- hash.
use jitong_app.Base.{
  ℕ, ◌≡◌, refl, Bool, false, not, ◌&&◌, ◌||◌, List, [], ◌∷◌, ◌++◌, Bytes, bytes_eq, bytes_eq_iff,
  count_of, arith,
}
use jitong_app.Server.AuthTable.{
  AuthSession, Row, Db, Sqlite, c_str, update, any, same_tokens, clashes, insert_session,
  is_current, renew, rotate_refresh_token, revoke, revoke_token_family, revoke_where,
}

abbrev pub Apart : List Row → Type 0
Apart [] = Unit
Apart (r ∷ rows) = (any (clashes r.session) rows ≡ false) × Apart rows

pub bytes_eq_sym : (a b : Bytes) → bytes_eq a b ≡ bytes_eq b a
bytes_eq_sym a b = ground (arith, bytes_eq_iff a b, bytes_eq_iff b a)

clashes_sym : (r x : Row) → clashes r.session x ≡ clashes x.session r
clashes_sym r x = ground (
  arith,
  bytes_eq_sym r.session.session_id x.session.session_id,
  bytes_eq_sym r.session.access_hash x.session.access_hash,
  bytes_eq_sym r.session.refresh_hash x.session.refresh_hash,
)

pub any-append {ℓ} :
    {A : Type ℓ} (p : A → Bool) (xs ys : List A) → any p (xs ++ ys) ≡ any p xs || any p ys
any-append p [] ys = refl
any-append p (x ∷ xs) ys = ground (arith, any-append p xs ys)

append-Apart :
    (x : Row) (rows : List Row)
    → any (clashes x.session) rows ≡ false
    → Apart rows
    → Apart (rows ++ x ∷ [])
append-Apart x [] n u = (refl, tt)
append-Apart x (r ∷ rows) n u =
    let rest : any (clashes x.session) rows ≡ false = ground arith in
    (
      ground (arith, any-append (clashes r.session) rows (x ∷ []), clashes_sym r x),
      append-Apart x rows rest u.1,
    )

pub insert_session-Apart :
    (q : Sqlite) (new : AuthSession) (d : Db)
    → Apart d.sessions
    → Apart (insert_session q new d).0.sessions
unfolding insert_session
insert_session-Apart q new d u = ground (
  arith,
  append-Apart (record { session = new; created_at = q.stamp; last_used_at = q.stamp }) d.sessions,
)

any-clashes-revoke :
    (new : AuthSession) (p : AuthSession → Bool) (rows : List Row)
    → any (clashes new) (update p revoke rows) ≡ any (clashes new) rows
unfolding update
any-clashes-revoke new p [] = refl
any-clashes-revoke new p (r ∷ rows) = ground (arith, any-clashes-revoke new p rows)

pub revoke-Apart :
    (p : AuthSession → Bool) (rows : List Row) → Apart rows → Apart (update p revoke rows)
unfolding update
revoke-Apart p [] u = tt
revoke-Apart p (r ∷ rows) u =
    ground (arith, revoke-Apart p rows u.1, any-clashes-revoke r.session p rows)

pub revoke_token_family-Apart :
    (q : Sqlite) (family : Bytes) (d : Db)
    → Apart d.sessions
    → Apart (revoke_token_family q family d).0.sessions
unfolding revoke_token_family
revoke_token_family-Apart q family d u =
    ground (arith, revoke-Apart (λ s. bytes_eq s.family_id (c_str family)) d.sessions)

pub revoke_where-Apart :
    (q : Sqlite) (p : AuthSession → Bool) (d : Db)
    → Apart d.sessions
    → Apart (revoke_where q p d).sessions
unfolding revoke_where
revoke_where-Apart q p d u = ground (arith, revoke-Apart p d.sessions)

-- The rotation gives the one row of the test `p` the hashes `access` and `refresh`.
module _ (p : AuthSession → Bool) (stamp au ru : ℕ) (access refresh : Bytes) where
  abbrev renewed : Row → Row
  renewed = renew stamp access au refresh ru

  abbrev pub is_taken : Row → Bool
  is_taken r = not (p r.session) && same_tokens (c_str access) (c_str refresh) r.session

  any-clashes-renew :
      (h : Row) (rows : List Row)
      → any (clashes h.session) rows ≡ false
      → same_tokens (c_str access) (c_str refresh) h.session ≡ false
      → any (clashes h.session) (update p renewed rows) ≡ false
  unfolding update
  any-clashes-renew h [] n t = refl
  any-clashes-renew h (r ∷ rows) n t =
      let rest : any (clashes h.session) rows ≡ false = ground arith in
      ground (
        arith,
        any-clashes-renew h rows rest t,
        bytes_eq_sym h.session.access_hash (c_str access),
        bytes_eq_sym h.session.refresh_hash (c_str refresh),
      )

  pub update_none :
      (change : Row → Row) (rows : List Row)
      → count_of (λ (r : Row). p r.session) rows ≡ 0
      → update p change rows ≡ rows
  unfolding update
  update_none change [] n = refl
  update_none change (r ∷ rows) n = ground (arith, update_none change rows)

  any-clashes-renewed :
      (h : Row) (rows : List Row)
      → any (clashes h.session) rows ≡ false
      → count_of (λ (r : Row). p r.session) rows ≡ 0
      → any is_taken rows ≡ false
      → any (clashes (renewed h).session) rows ≡ false
  any-clashes-renewed h [] n c t = refl
  any-clashes-renewed h (r ∷ rows) n c t =
      let a : any (clashes h.session) rows ≡ false = ground arith in
      let b : count_of (λ (x : Row). p x.session) rows ≡ 0 = ground arith in
      let k : any is_taken rows ≡ false = ground arith in
      ground (arith, any-clashes-renewed h rows a b k)

  pub renew-Apart :
      (rows : List Row)
      → count_of (λ (r : Row). p r.session) rows ≡ 1
      → any is_taken rows ≡ false
      → Apart rows
      → Apart (update p renewed rows)
  unfolding update
  renew-Apart [] c t u = tt
  renew-Apart (r ∷ rows) c t u =
      let k : any is_taken rows ≡ false = ground arith in
      ground (
        arith,
        any-clashes-renew r rows u.0,
        any-clashes-renewed r rows u.0,
        update_none renewed rows,
        renew-Apart rows,
      )

pub rotate_refresh_token-Apart :
    (q : Sqlite) (old : AuthSession) (old_hash access refresh : Bytes) (au ru : ℕ) (d : Db)
    → Apart d.sessions
    → Apart (rotate_refresh_token q old old_hash access au refresh ru d).0.sessions
unfolding rotate_refresh_token
rotate_refresh_token-Apart q old old_hash access refresh au ru d u =
    ground (arith, renew-Apart (is_current old old_hash) q.stamp au ru access refresh d.sessions)
