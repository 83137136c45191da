-- ===== src/Server/Tokens/Repeat.antt =====
-- TokenService::rotateRefresh, called again with the same request id while its result is kept.
use jitong_app.Base.{
  All, ℕ, ◌+◌, ◌<◌, ◌≤◌, ◌≡◌, refl, ap, Bool, true, false, not, ◌&&◌, none, some, List, [], ◌∷◌,
  Bytes, bytes_eq, bytes_eq_iff, bytes_eq_refl, is_empty, leb, arith, if◌then◌else◌, length,
  length-keep-le, count_of,
}
use jitong_app.Base.Dict.{find, erase, find-put, find-keep, bytes_Eq, HasUniqueKeys, length-put-le}
use jitong_app.Server.AuthTable.{Db}
use jitong_app.Server.Tokens.{
  TokenPair, Results, Cached, Service, Env, token_hash, issue, save, revoke_session,
  revoke_all_for_user,
}
use jitong_app.Server.Tokens.Rotate.{rotated, refused, sweep, remember, answer, rotate_refresh}
use jitong_app.Server.Tokens.Runs.{Event, issues, rotates, revokes_session, revokes_user, step, run}
use jitong_app.Server.Tokens.Fresh.{rotate_refresh_lem, kept}
use jitong_app.Server.Tokens.Cache.{sweep-HasUniqueKeys, remember-HasUniqueKeys, answer-Q}

find-remember :
    (begin : Results → Bytes) (request : Bytes) (c : Cached) (m : Results)
    → find request (remember begin request c m) ≡ some c
unfolding remember
find-remember begin request c m = ground (
  arith,
  find-put request request c m,
  find-put request request c (erase (begin m) m),
  bytes_eq_refl request,
)

find-sweep :
    (now : ℕ) (request : Bytes) (c : Cached) (m : Results)
    → HasUniqueKeys m
    → find request m ≡ some c
    → now < c.expires_at
    → find request (sweep now m) ≡ some c
unfolding sweep
find-sweep now request c m u f h =
    ground (arith, find-keep (λ (x : Bytes × Cached). not (leb x.1.expires_at now)) request m u)

-- The result of the request is there, among `n` results at most.
record Held (request : Bytes) (c : Cached) (n : ℕ) (m : Results) : Type 0 where
  held : find request m ≡ some c
  unique : HasUniqueKeys m
  few : length m ≤ n

sweep-Held :
    (now : ℕ) (request : Bytes) (c : Cached) (n : ℕ) (m : Results)
    → now < c.expires_at
    → Held request c n m
    → Held request c n (sweep now m)
unfolding sweep
sweep-Held now request c n m h k = record {
  held = find-sweep now request c m k.unique k.held h;
  unique = sweep-HasUniqueKeys now m k.unique;
  few =
      omega (arith, k.few, length-keep-le (λ (x : Bytes × Cached). not (leb x.1.expires_at now)) m);
}

more-Held :
    (request : Bytes) (c : Cached) (n : ℕ) (m : Results)
    → Held request c n m
    → Held request c (n + 1) m
more-Held request c n m k = record { held = k.held; unique = k.unique; few = omega (arith, k.few) }

-- Below 1024 results, one more evicts none.
remember-Held :
    (begin : Results → Bytes) (other : Bytes) (d : Cached) (request : Bytes) (c : Cached) (n : ℕ)
    (m : Results)
    → n < 1024
    → find other m ≡ none
    → Held request c n m
    → Held request c (n + 1) (remember begin other d m)
unfolding remember
remember-Held begin other d request c n m h free k = record {
  held =
      ground
        (arith, h, free, k.held, k.few, find-put other request d m, bytes_eq_iff request other);
  unique = remember-HasUniqueKeys begin other d m k.unique;
  few = ground (arith, h, k.few, length-put-le other d m);
}

abbrev pub is_rotation : Event → Bool
is_rotation (rotates e token device request) = true
is_rotation _ = false

-- The call is not a rotation at the time `t` or later.
abbrev pub IsBefore : ℕ → Event → Type 0
IsBefore t (rotates e token device request) = e.now < t
IsBefore t _ = Unit

module _ (digest : Bytes → Bytes) (begin : Results → Bytes) where
  has_request :
      (e : Env) (token device request : Bytes) (p : TokenPair) (s : Service)
      → (rotate_refresh digest begin e token device request s).1 ≡ rotated p
      → is_empty request ≡ false
  unfolding rotate_refresh
  has_request e token device request p s h = ground arith

  -- A call whose request id has the result `c`.
  rotate_refresh_repeat :
      (e : Env) (token device request : Bytes) (c : Cached) (s : Service)
      → find request (sweep e.now s.refresh_results) ≡ some c
      → is_empty token ≡ false
      → is_empty device ≡ false
      → is_empty request ≡ false
      → rotate_refresh digest begin e token device request s ≡ (
        record s { refresh_results = sweep e.now s.refresh_results },
        if bytes_eq c.refresh_hash (token_hash digest token) && bytes_eq c.device_id device
            then rotated c.pair
            else refused none,
      )
  unfolding rotate_refresh answer
  rotate_refresh_repeat e token device request c s f a b r = ground arith

  step_rotation :
      (e : Env) (token device other request : Bytes) (c : Cached) (n : ℕ) (s : Service)
      → e.now < c.expires_at
      → n < 1024
      → Held request c n s.refresh_results
      → Held request c
          (n + 1)
          (rotate_refresh digest begin e token device other s).0.refresh_results
  unfolding rotate_refresh
  step_rotation e token device other request c n s h small k =
      let m = sweep e.now s.refresh_results in
      let q = sweep-Held e.now request c n s.refresh_results h k in
      ground (
        arith,
        more-Held request c n s.refresh_results k,
        answer-Q digest begin (Held request c (n + 1)) other m (more-Held request c n m q) e
            (token_hash digest token) device (record s { refresh_results = m }) refl
            (λ free d. remember-Held begin other d request c n m small free q),
      )

  results-issue :
      (e : Env) (user : ℕ) (device : Bytes) (s : Service)
      → (issue digest e user device s).0.refresh_results ≡ s.refresh_results
  unfolding issue save
  results-issue e user device s = ground arith

  results-revoke :
      (e : Env) (sid : Bytes) (user : ℕ) (s : Service)
      → ((revoke_session e sid s).refresh_results ≡ s.refresh_results)
        × ((revoke_all_for_user e user s).refresh_results ≡ s.refresh_results)
  unfolding revoke_session revoke_all_for_user
  results-revoke e sid user s = ground arith

  run-Held :
      (xs : List Event) (request : Bytes) (c : Cached) (n : ℕ) (s : Service)
      → All (IsBefore c.expires_at) xs
      → n + count_of is_rotation xs ≤ 1024
      → Held request c n s.refresh_results
      → Held request c 1024 (run digest begin xs s).refresh_results
  unfolding run step
  run-Held [] request c n s t h k = record {
    held = k.held;
    unique = k.unique;
    few = omega (arith, k.few, h);
  }
  run-Held (issues e user device ∷ xs) request c n s t h k =
      run-Held xs request c n (issue digest e user device s).0 t.1 (omega (arith, h))
        (rw (results-issue e user device s) k)
  run-Held (rotates e token device other ∷ xs) request c n s t h k =
      run-Held xs request c (n + 1) (rotate_refresh digest begin e token device other s).0 t.1
        (omega (arith, h))
        (step_rotation e token device other request c n s t.0 (omega (arith, h)) k)
  run-Held (revokes_session e sid ∷ xs) request c n s t h k =
      run-Held xs request c n (revoke_session e sid s) t.1 (omega (arith, h))
        (rw (results-revoke e sid 0 s).0 k)
  run-Held (revokes_user e user ∷ xs) request c n s t h k =
      run-Held xs request c n (revoke_all_for_user e user s) t.1 (omega (arith, h))
        (rw (results-revoke e [] user s).1 k)

  first_Held :
      (e : Env) (token device request : Bytes) (p : TokenPair) (s : Service)
      → let after = (rotate_refresh digest begin e token device request s).0.refresh_results in
        HasUniqueKeys s.refresh_results
        → find request (sweep e.now s.refresh_results) ≡ none
        → (rotate_refresh digest begin e token device request s).1 ≡ rotated p
        → Held request
            (kept digest begin e (token_hash digest token) device request p)
            (length after)
            after
  first_Held e token device request p s u n h =
      let swept = sweep e.now s.refresh_results in
      let hash = token_hash digest token in
      let r = rotate_refresh_lem digest begin e hash device request token p s refl n h in
      let c = kept digest begin e hash device request p in
      rw (ap (λ (x : Service). x.refresh_results) r.after) (record {
        held = find-remember begin request c swept;
        unique =
            remember-HasUniqueKeys begin request c swept
              (sweep-HasUniqueKeys e.now s.refresh_results u);
        few = omega arith;
      })

  -- A rotation with a request id that had no result gave the pair `p`. Any calls of the service come
  -- next, and within 120 seconds of the rotation the same request id comes again, whatever the tables
  -- hold by then: the same refresh token from the same device gets `p` again, any other is refused,
  -- and the tables do not change. The rotations that come between are within the 120 seconds too, and
  -- with them the results that the first rotation left are not more than 1024, so that none
  -- has to make room. No request id stands twice among the results at the beginning, and neither
  -- the token nor the device is the empty string.
  pub same_request_again :
      (e e' : Env) (token token' device device' request : Bytes) (p : TokenPair)
      (between : List Event) (d : Db) (s : Service)
      → let after = (rotate_refresh digest begin e token device request s).0 in
        let later = run digest begin between after in
        HasUniqueKeys s.refresh_results
        → find request (sweep e.now s.refresh_results) ≡ none
        → (rotate_refresh digest begin e token device request s).1 ≡ rotated p
        → All (IsBefore (e.now + 120)) between
        → length after.refresh_results + count_of is_rotation between ≤ 1024
        → e'.now < e.now + 120
        → is_empty token' ≡ false
        → is_empty device' ≡ false
        → rotate_refresh digest begin e' token' device' request (record later { db = d }) ≡ (
          record { db = d; refresh_results = sweep e'.now later.refresh_results },
          if bytes_eq (token_hash digest token) (token_hash digest token')
                && bytes_eq device device'
              then rotated p
              else refused none,
        )
  same_request_again e e' token token' device device' request p between d s u n h before few t a b =
      let after = (rotate_refresh digest begin e token device request s).0 in
      let later = run digest begin between after in
      let c = kept digest begin e (token_hash digest token) device request p in
      let k =
        run-Held between request c (length after.refresh_results) after before few
          (first_Held e token device request p s u n h) in
      rotate_refresh_repeat e' token' device' request c (record later { db = d })
        (find-sweep e'.now request c later.refresh_results k.unique k.held t) a b
        (has_request e token device request p s h)
