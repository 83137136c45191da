-- ===== src/Server/Tokens/Runs.antt =====
-- Runs of TokenService, one call after another: what a property of the tables needs to be kept by
-- all of them.
use jitong_app.Base.{
  All, ℕ, ◌+◌, ◌≡◌, Bool, Option, none, some, List, [], ◌∷◌, Bytes, bytes_eq, ◌==◌, arith,
  Option-cases, inl, inr,
}
use jitong_app.Base.Dict.{bytes_Eq}
use jitong_app.Server.AuthTable.{
  AuthSession, Db, Sqlite, c_str, create_auth_session, find_by_refresh_hash, rotate_refresh_token,
  was_refresh_token_used, revoke_token_family, revoke_where, revoke_all_user_sessions,
}
use jitong_app.Server.AuthTable
use jitong_app.Server.Tokens.{
  TokenPair, Results, Service, Env, token_hash, random_token, new_pair, save, issue, revoke_session,
  revoke_all_for_user,
}
use jitong_app.Server.Tokens.Rotate.{
  sweep, revoke_family, refuse_used, store_next, rotate_found, rotate_or_refuse, answer,
  rotate_refresh, next_pair,
}

pub data Event : Type 0 where
  issues : Env → ℕ → Bytes → Event
  rotates : Env → Bytes → Bytes → Bytes → Event
  revokes_session : Env → Bytes → Event
  revokes_user : Env → ℕ → Event

-- What is asked of the family ids and the refresh tokens that the calls draw.
abbrev pub Draws : (Bytes → Type 0) → (Bytes → Type 0) → Event → Type 0
Draws F R (issues e user device) =
    ((f : Bytes) → random_token e 1 ≡ some f → F f)
    × ((t : Bytes) → random_token e 3 ≡ some t → R t)
Draws F R (rotates e token device request) = (t : Bytes) → random_token e 1 ≡ some t → R t
Draws F R _ = Unit

module _ (digest : Bytes → Bytes) (begin : Results → Bytes) where
  unfoldable pub step : Event → Service → Service
  step (issues e user device) s = (issue digest e user device s).0
  step (rotates e token device request) s = (rotate_refresh digest begin e token device request s).0
  step (revokes_session e sid) s = revoke_session e sid s
  step (revokes_user e user) s = revoke_all_for_user e user s

  unfoldable pub run : List Event → Service → Service
  unfolding step
  run [] s = s
  run (x ∷ xs) s = run xs (step x s)

-- The family and the refresh token of a new pair are the second and the fourth draw, and its access
-- token is good for five minutes.
pub new_pair_lem :
    (e : Env) (p : TokenPair)
    → new_pair e ≡ some p
    → (random_token e 1 ≡ some p.family_id)
      × (random_token e 3 ≡ some p.refresh_token)
      × (p.access_expires_at ≡ e.now + 300)
unfolding new_pair
new_pair_lem e p h = elim (Option-cases (random_token e 0)) [
  | inl a ↦ ground arith
  | inr (s0, a) ↦ elim (Option-cases (random_token e 1)) [
    | inl b ↦ ground arith
    | inr (s1, b) ↦ elim (Option-cases (random_token e 2)) [
      | inl c ↦ ground arith
      | inr (s2, c) ↦ elim (Option-cases (random_token e 3)) [
        | inl d ↦ ground arith
        | inr (s3, d) ↦ ground arith
      ]
    ]
  ]
]

-- A property of the tables that every statement keeps.
pub record IsStable (digest : Bytes → Bytes) (F R : Bytes → Type 0) (P : Db → Type 0) : Type 0 where
  pub inserts :
      (q : Sqlite) (sid family : Bytes) (user : ℕ) (device access : Bytes) (au : ℕ) (token : Bytes)
      (ru : ℕ) (d : Db)
      → F family
      → R token
      → P d
      → P (create_auth_session q sid family user device access au (token_hash digest token) ru d).0
  pub rotates :
      (q : Sqlite) (old : AuthSession) (old_hash access : Bytes) (au : ℕ) (token : Bytes) (ru : ℕ)
      (d : Db)
      → R token
      → P d
      → P (rotate_refresh_token q old old_hash access au (token_hash digest token) ru d).0
  pub revokes_family :
      (q : Sqlite) (family : Bytes) (d : Db) → P d → P (revoke_token_family q family d).0
  pub revokes : (q : Sqlite) (p : AuthSession → Bool) (d : Db) → P d → P (revoke_where q p d)

module _ (digest : Bytes → Bytes) (begin : Results → Bytes) (F R : Bytes → Type 0) (P : Db → Type 0)
    (k : IsStable digest F R P) where
  revoke_family-P :
      (e : Env) (s : Service) (o : Option Bytes) → P s.db → P (revoke_family e s o).0.db
  revoke_family-P e s none h = h
  revoke_family-P e s (some family) h = ground (arith, k.revokes_family e.sqlite family s.db h)

  refuse_used-P : (e : Env) (hash : Bytes) (s : Service) → P s.db → P (refuse_used e hash s).0.db
  unfolding refuse_used
  refuse_used-P e hash s h = revoke_family-P e s (was_refresh_token_used e.sqlite hash s.db) h

  store_next-P :
      (e : Env) (old : AuthSession) (hash device request : Bytes) (next : TokenPair) (s : Service)
      → R next.refresh_token
      → P s.db
      → P (store_next digest begin e old hash device request next s).0.db
  unfolding store_next
  store_next-P e old hash device request next s r h = ground (
    arith,
    refuse_used-P e hash s h,
    k.rotates e.sqlite old hash (token_hash digest next.access_token) next.access_expires_at
        next.refresh_token next.refresh_expires_at s.db r h,
  )

  rotate_found-P :
      (e : Env) (old : AuthSession) (hash device request : Bytes) (s : Service)
      → ((t : Bytes) → random_token e 1 ≡ some t → R t)
      → P s.db
      → P (rotate_found digest begin e old hash device request s).0.db
  unfolding rotate_found
  rotate_found-P e old hash device request s r h = elim (Option-cases (random_token e 0)) [
    | inl n ↦ ground arith
    | inr (access, a) ↦ elim (Option-cases (random_token e 1)) [
      | inl n ↦ ground arith
      | inr (refresh, b) ↦
          let rest =
            store_next-P e old hash device request (next_pair e old access refresh) s (r refresh b)
              h in
          ground arith
    ]
  ]

  rotate_or_refuse-P :
      (e : Env) (hash device request : Bytes) (s : Service) (o : Option AuthSession)
      → ((t : Bytes) → random_token e 1 ≡ some t → R t)
      → P s.db
      → P (rotate_or_refuse digest begin e hash device request s o).0.db
  rotate_or_refuse-P e hash device request s none r h = refuse_used-P e hash s h
  rotate_or_refuse-P e hash device request s (some old) r h =
      rotate_found-P e old hash device request s r h

  answer-P :
      (e : Env) (hash device request : Bytes) (s : Service)
      → ((t : Bytes) → random_token e 1 ≡ some t → R t)
      → P s.db
      → P (answer digest begin e hash device request s).0.db
  unfolding answer
  answer-P e hash device request s r h = ground (
    arith,
    rotate_or_refuse-P e hash device request s (find_by_refresh_hash e.sqlite hash s.db) r h,
  )

  issue-P :
      (e : Env) (user : ℕ) (device : Bytes) (s : Service)
      → ((f : Bytes) → random_token e 1 ≡ some f → F f)
      → ((t : Bytes) → random_token e 3 ≡ some t → R t)
      → P s.db
      → P (issue digest e user device s).0.db
  unfolding issue save
  issue-P e user device s f r h = elim (Option-cases (new_pair e)) [
    | inl n ↦ ground arith
    | inr (p, drawn) ↦
        let d = new_pair_lem e p drawn in
        let saved =
          k.inserts e.sqlite p.session_id p.family_id user device (token_hash digest p.access_token)
            p.access_expires_at p.refresh_token p.refresh_expires_at s.db (f p.family_id d.0)
            (r p.refresh_token d.1) h in
        ground arith
  ]

  pub step-P : (x : Event) (s : Service) → Draws F R x → P s.db → P (step digest begin x s).db
  unfolding step rotate_refresh revoke_session revoke_all_for_user AuthTable.revoke_session
      revoke_all_user_sessions
  step-P (issues e user device) s r h = issue-P e user device s r.0 r.1 h
  step-P (rotates e token device request) s r h = ground (
    arith,
    answer-P e (token_hash digest token) device request
        (record s { refresh_results = sweep e.now s.refresh_results }) r h,
  )
  step-P (revokes_session e sid) s r h =
      ground (arith, k.revokes e.sqlite (λ a. bytes_eq a.session_id (c_str sid)) s.db h)
  step-P (revokes_user e user) s r h =
      ground (arith, k.revokes e.sqlite (λ a. a.user_id == user) s.db h)

  pub run-P :
      (xs : List Event) (s : Service) → All (Draws F R) xs → P s.db → P (run digest begin xs s).db
  unfolding run
  run-P [] s r h = h
  run-P (x ∷ xs) s r h = run-P xs (step digest begin x s) r.1 (step-P x s r.0 h)
