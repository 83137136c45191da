-- ===== src/Server/Login/Isolation.antt =====
-- LoginRateLimiter: failures at one address leave every other address alone, and a success lifts
-- the block of its pair and no other.
use jitong_app.Base.{
  ℕ, ◌≤◌, ◌≡◌, ◌≢◌, refl, sym, ◌∙◌, true, false, not, [], ◌∷◌, Bytes, bytes_eq, bytes_eq_iff,
  is_empty, if◌then◌else◌, All, arith,
}
use jitong_app.Base.Dict.{find, find-put, find-erase, bytes_Eq}
use jitong_app.Server.Login.{
  Policy, BucketMap, Limiter, or_new, pair_key, blocked_at, fail_bucket, fail_at, count_operation,
  allow, record_failure, record_success,
}
use jitong_app.Server.Login.Buckets.{blocked_at-cleanup}
use jitong_app.Server.Login.Blocking.{Inv, failed, failed-Inv, record_failure_lem, allow_lem}

-- An address as `inet_ntop` prints it: no line break.
abbrev pub IsAddress : Bytes → Type 0
IsAddress ip = All (λ (c : ℕ). c ≢ 10) ip

pair_key-injective :
    (ip ip' account account' : Bytes)
    → IsAddress ip
    → IsAddress ip'
    → bytes_eq (pair_key ip account) (pair_key ip' account') ≡ true
    → bytes_eq ip ip' ≡ true
unfolding pair_key bytes_eq
pair_key-injective [] [] account account' h h' e = refl
pair_key-injective [] (c ∷ ip') account account' h h' e = ground arith
pair_key-injective (c ∷ ip) [] account account' h h' e = ground arith
pair_key-injective (c ∷ ip) (d ∷ ip') account account' h h' e =
    ground (arith, pair_key-injective ip ip' account account')

blocked_at-fail_at :
    (p : Policy) (limit block now later : ℕ) (k j : Bytes) (m : BucketMap)
    → bytes_eq j k ≡ false
    → blocked_at j later (fail_at p limit block now k m) ≡ blocked_at j later m
unfolding blocked_at fail_at
blocked_at-fail_at p limit block now later k j m h =
    ground (arith, find-put k j (fail_bucket p limit block now (or_new (find k m))) m)

-- The decision does not see the cleanups.
allow-count_operation :
    (ip account : Bytes) (now later : ℕ) (l : Limiter)
    → Inv l
    → now ≤ later
    → (allow ip account later (count_operation now l)).1 ≡ (allow ip account later l).1
unfolding count_operation
allow-count_operation ip account now later l v h =
    let k = pair_key ip account in
    allow_lem ip account later (count_operation now l)
    ∙ ground (
      arith,
      blocked_at-cleanup l.policy now later ip l.ip_buckets v.ips h,
      blocked_at-cleanup l.policy now later k l.pair_buckets v.pairs h,
    )
    ∙ sym (allow_lem ip account later l)

-- A failure of any account at one address changes no decision of `allow` for another address, at
-- the time of the failure or later, where neither address holds a line break and no key stands
-- twice in the limiter's maps.
pub record_failure_isolated :
    (ip account ip' account' : Bytes) (now later : ℕ) (l : Limiter)
    → Inv l
    → IsAddress ip
    → IsAddress ip'
    → bytes_eq ip' ip ≡ false
    → now ≤ later
    → (allow ip' account' later (record_failure ip account now l)).1
      ≡ (allow ip' account' later l).1
record_failure_isolated ip account ip' account' now later l v h h' ne le =
    let p = l.policy in
    let k = pair_key ip account in
    let k' = pair_key ip' account' in
    let apart : bytes_eq k' k ≡ false =
      ground (arith, pair_key-injective ip' ip account' account h' h) in
    let e1 = blocked_at-fail_at p p.ip_failure_limit p.ip_block now later ip ip' l.ip_buckets ne in
    let e2 =
      blocked_at-fail_at p p.pair_failure_limit p.pair_block now later k k' l.pair_buckets apart in
    rw record_failure_lem (
      allow-count_operation ip' account' now later (failed ip account now l)
        (failed-Inv ip account now l v) le)
    ∙ allow_lem ip' account' later (failed ip account now l)
    ∙ ground (arith, e1, e2)
    ∙ sym (allow_lem ip' account' later l)

-- After a success of an account, not an empty one, at an address, `allow` lets that account at that
-- address in unless the address itself is blocked, which the success does not lift. For any other
-- pair of address and account the decision is the one before.
pub record_success_lem :
    (ip account ip' account' : Bytes) (now : ℕ) (l : Limiter)
    → is_empty account ≡ false
    → (allow ip' account' now (record_success ip account l)).1 ≡ (
        if bytes_eq (pair_key ip' account') (pair_key ip account)
        then not (blocked_at ip' now l.ip_buckets)
        else (allow ip' account' now l).1)
unfolding blocked_at record_success
record_success_lem ip account ip' account' now l a =
    let k = pair_key ip account in
    let k' = pair_key ip' account' in
    ground (
      arith,
      allow_lem ip' account' now (record_success ip account l),
      allow_lem ip' account' now l,
      find-erase k k' l.pair_buckets,
      bytes_eq_iff k' k,
    )
