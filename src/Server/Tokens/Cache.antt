-- ===== src/Server/Tokens/Cache.antt =====
-- TokenService::m_refreshResults: what every call keeps of the results, and their number.
use jitong_app.Base.{
  ℕ, ◌+◌, ◌≤◌, ◌≡◌, ◌≢◌, refl, sym, ap, ◌∙◌, not, Option, none, some, List, [], ◌∷◌, Bytes, leb,
  length, length-keep-le, arith, Option-cases, inl, inr,
}
use jitong_app.Base.Dict.{
  find, erase, bytes_Eq, length-put-le, length-erase-le, HasUniqueKeys, put-HasUniqueKeys,
  erase-HasUniqueKeys, keep-HasUniqueKeys,
}
use jitong_app.Server.AuthTable.{AuthSession, find_by_refresh_hash, was_refresh_token_used}
use jitong_app.Server.Tokens.{
  TokenPair, Results, Cached, Service, Env, token_hash, random_token, save, issue, revoke_session,
  revoke_all_for_user,
}
use mathlib.Core.Path.{subst}
use jitong_app.Server.Tokens.Rotate.{
  Rotated, sweep, remember, revoke_family, refuse_used, store_next, rotate_found, rotate_or_refuse,
  answer, rotate_refresh, next_pair,
}
use jitong_app.Server.Tokens.Runs.{Event, issues, rotates, revokes_session, revokes_user, step, run}

-- A rotation's results are those after the sweep, or those with one more, whose request id had none.
module _ (digest : Bytes → Bytes) (begin : Results → Bytes) (Q : Results → Type 0) (request : Bytes)
    (m : Results) (swept : Q m) where
  revoke_family-Q :
      (e : Env) (s : Service) (o : Option Bytes)
      → s.refresh_results ≡ m
      → Q (revoke_family e s o).0.refresh_results
  revoke_family-Q e s none h = ground (arith, swept)
  revoke_family-Q e s (some family) h = ground (arith, swept)

  module _ (remembers : (c : Cached) → Q (remember begin request c m)) where
    store_next-Q :
        (e : Env) (old : AuthSession) (hash device : Bytes) (next : TokenPair) (s : Service)
        → s.refresh_results ≡ m
        → Q (store_next digest begin e old hash device request next s).0.refresh_results
    unfolding store_next refuse_used
    store_next-Q e old hash device next s h = ground (
      arith,
      h,
      revoke_family-Q e s (was_refresh_token_used e.sqlite hash s.db) h,
      remembers (record {
        refresh_hash = hash;
        device_id = device;
        pair = next;
        expires_at = e.now + 120;
      }),
    )

    rotate_or_refuse-Q :
        (e : Env) (hash device : Bytes) (s : Service) (o : Option AuthSession)
        → s.refresh_results ≡ m
        → Q (rotate_or_refuse digest begin e hash device request s o).0.refresh_results
    unfolding refuse_used rotate_found
    rotate_or_refuse-Q e hash device s none h =
        revoke_family-Q e s (was_refresh_token_used e.sqlite hash s.db) h
    rotate_or_refuse-Q e hash device s (some old) h = elim (Option-cases (random_token e 0)) [
      | inl n ↦ ground (arith, swept, h)
      | inr (access, a) ↦ elim (Option-cases (random_token e 1)) [
        | inl n ↦ ground (arith, swept, h)
        | inr (refresh, b) ↦
            let next = next_pair e old access refresh in
            ground (arith, swept, h, store_next-Q e old hash device next s h)
      ]
    ]

  pub answer-Q :
      (e : Env) (hash device : Bytes) (s : Service)
      → s.refresh_results ≡ m
      → (find request m ≡ none → (c : Cached) → Q (remember begin request c m))
      → Q (answer digest begin e hash device request s).0.refresh_results
  unfolding answer
  answer-Q e hash device s h remembers = elim (Option-cases (find request s.refresh_results)) [
    | inl n ↦
        let o = find_by_refresh_hash e.sqlite hash s.db in
        let same : answer digest begin e hash device request s
            ≡ rotate_or_refuse digest begin e hash device request s o =
          ground (arith, n) in
        subst (λ (r : Service × Rotated). Q r.0.refresh_results) (sym same)
          (rotate_or_refuse-Q (remembers (ap (find request) (sym h) ∙ n)) e hash device s o h)
    | inr (c, n) ↦
        let same : (answer digest begin e hash device request s).0.refresh_results ≡ m =
          ground (arith, n, h) in
        subst Q (sym same) swept
  ]

module _ (digest : Bytes → Bytes) (begin : Results → Bytes) (Q : Results → Type 0)
    (sweeps : (now : ℕ) (m : Results) → Q m → Q (sweep now m))
    (remembers : (request : Bytes) (c : Cached) (m : Results)
      → Q m
      → Q (remember begin request c m)) where
  step-Q :
      (x : Event) (s : Service) → Q s.refresh_results → Q (step digest begin x s).refresh_results
  unfolding step rotate_refresh revoke_session revoke_all_for_user issue save
  step-Q (issues e user device) s h = ground arith
  step-Q (rotates e token device request) s h =
      let m = sweep e.now s.refresh_results in
      let q = sweeps e.now s.refresh_results h in
      ground (
        arith,
        answer-Q digest begin Q request m q e (token_hash digest token) device
            (record s { refresh_results = m }) refl (λ n c. remembers request c m q),
      )
  step-Q (revokes_session e sid) s h = ground arith
  step-Q (revokes_user e user) s h = ground arith

  run-Q :
      (xs : List Event) (s : Service)
      → Q s.refresh_results
      → Q (run digest begin xs s).refresh_results
  unfolding run
  run-Q [] s h = h
  run-Q (x ∷ xs) s h = run-Q xs (step digest begin x s) (step-Q x s h)

pub sweep-HasUniqueKeys : (now : ℕ) (m : Results) → HasUniqueKeys m → HasUniqueKeys (sweep now m)
unfolding sweep
sweep-HasUniqueKeys now m h =
    keep-HasUniqueKeys (λ (x : Bytes × Cached). not (leb x.1.expires_at now)) m h

pub remember-HasUniqueKeys :
    (begin : Results → Bytes) (request : Bytes) (c : Cached) (m : Results)
    → HasUniqueKeys m
    → HasUniqueKeys (remember begin request c m)
unfolding remember
remember-HasUniqueKeys begin request c m h = ground (
  arith,
  put-HasUniqueKeys request c m h,
  put-HasUniqueKeys request c (erase (begin m) m) (erase-HasUniqueKeys (begin m) m h),
)

length-erase-lt :
    (k : Bytes) (m : Results) (c : Cached) → find k m ≡ some c → length (erase k m) + 1 ≤ length m
unfolding find erase
length-erase-lt k [] c h = cc
length-erase-lt k ((j, v) ∷ m) c h = ground (arith, length-erase-lt k m c, length-erase-le k m)

-- `begin` gives a key of every map that is not empty.
abbrev pub IsBegin : (Results → Bytes) → Type 0
IsBegin begin = (m : Results) → 1 ≤ length m → find (begin m) m ≢ none

remember_bounded :
    (begin : Results → Bytes) (request : Bytes) (c : Cached) (m : Results)
    → IsBegin begin
    → length m ≤ 1024
    → length (remember begin request c m) ≤ 1024
unfolding remember
remember_bounded begin request c m k h = elim (Option-cases (find (begin m) m)) [
  | inl n ↦ ground (arith, k m, length-put-le request c m)
  | inr (old, f) ↦ ground (
    arith,
    length-put-le request c m,
    length-put-le request c (erase (begin m) m),
    length-erase-lt (begin m) m old f,
  )
]

sweep_bounded : (now : ℕ) (m : Results) → length m ≤ 1024 → length (sweep now m) ≤ 1024
unfolding sweep
sweep_bounded now m h =
    omega (arith, length-keep-le (λ (x : Bytes × Cached). not (leb x.1.expires_at now)) m)

-- Whatever calls are made, m_refreshResults never holds more than 1024 results and no request id
-- twice, where it did not before, when the iteration of a map that is not empty begins at one of
-- its keys.
pub run-results :
    (digest : Bytes → Bytes) (begin : Results → Bytes) (xs : List Event) (s : Service)
    → IsBegin begin
    → length s.refresh_results ≤ 1024
    → HasUniqueKeys s.refresh_results
    → (length (run digest begin xs s).refresh_results ≤ 1024)
      × HasUniqueKeys (run digest begin xs s).refresh_results
run-results digest begin xs s k h u = (
  run-Q digest begin (λ m. length m ≤ 1024) sweep_bounded
      (λ request c m b. remember_bounded begin request c m k b) xs s h,
  run-Q digest begin (λ m. HasUniqueKeys m) sweep-HasUniqueKeys (remember-HasUniqueKeys begin) xs s
      u,
)
