-- ===== src/Server/Login/Blocking.antt =====
-- LoginRateLimiter: what a failure does to the state, and what `allow` decides.
use jitong_app.Base.{
  ℕ, ◌+◌, ◌%◌, ◌≡◌, refl, false, not, ◌&&◌, ◌||◌, some, Bytes, bytes_eq_refl, is_empty, ◌==◌,
  if◌then◌else◌, arith, inl, inr, Bool-cases,
}
use jitong_app.Base.Dict.{
  find, put, find-put, HasUniqueKeys, put-HasUniqueKeys, keep-HasUniqueKeys, bytes_Eq,
}
use jitong_app.Server.Login.{
  Policy, BucketMap, Limiter, or_new, pair_key, blocked_at, fail_bucket, fail_at, u64, cleanup,
  count_operation, allow, record_failure,
}
use jitong_app.Server.Login.Buckets.{blocked_at-prune_at, find-cleanup}

pub record Inv (l : Limiter) : Type 0 where
  pub ips : HasUniqueKeys l.ip_buckets
  pub pairs : HasUniqueKeys l.pair_buckets

fail_at-HasUniqueKeys :
    (p : Policy) (limit block now : ℕ) (k : Bytes) (m : BucketMap)
    → HasUniqueKeys m
    → HasUniqueKeys (fail_at p limit block now k m)
unfolding fail_at
fail_at-HasUniqueKeys p limit block now k m u =
    put-HasUniqueKeys k (fail_bucket p limit block now (or_new (find k m))) m u

count_operation-Inv : (now : ℕ) (l : Limiter) → Inv l → Inv (count_operation now l)
unfolding count_operation cleanup
count_operation-Inv now l v = elim (Bool-cases (u64 (l.operations + 1) % 256 == 0)) [
  | inl e ↦ rw e (record {
    ips = keep-HasUniqueKeys _ l.ip_buckets v.ips;
    pairs = keep-HasUniqueKeys _ l.pair_buckets v.pairs;
  })
  | inr e ↦ rw e (record { ips = v.ips; pairs = v.pairs })
]

-- The state that `record_failure` counts the operation in.
abbrev pub failed : Bytes → Bytes → ℕ → Limiter → Limiter
failed ip account now l = record l {
  ip_buckets = fail_at l.policy l.policy.ip_failure_limit l.policy.ip_block now ip l.ip_buckets;
  pair_buckets =
      if is_empty account
      then l.pair_buckets
      else fail_at l.policy l.policy.pair_failure_limit l.policy.pair_block now
          (pair_key ip account) l.pair_buckets;
}

pub record_failure_lem :
    (ip account : Bytes) (now : ℕ) (l : Limiter)
    → record_failure ip account now l ≡ count_operation now (failed ip account now l)
unfolding record_failure
record_failure_lem ip account now l = refl

pub failed-Inv :
    (ip account : Bytes) (now : ℕ) (l : Limiter) → Inv l → Inv (failed ip account now l)
failed-Inv ip account now l v = ground (
  arith,
  fail_at-HasUniqueKeys l.policy l.policy.ip_failure_limit l.policy.ip_block now ip l.ip_buckets
      v.ips,
  fail_at-HasUniqueKeys l.policy l.policy.pair_failure_limit l.policy.pair_block now
      (pair_key ip account) l.pair_buckets v.pairs,
)

pub record_failure-Inv :
    (ip account : Bytes) (now : ℕ) (l : Limiter) → Inv l → Inv (record_failure ip account now l)
record_failure-Inv ip account now l v =
    rw record_failure_lem
      (count_operation-Inv now (failed ip account now l) (failed-Inv ip account now l v))

pub policy-record_failure :
    (ip account : Bytes) (now : ℕ) (l : Limiter)
    → (record_failure ip account now l).policy ≡ l.policy
unfolding record_failure count_operation
policy-record_failure ip account now l = ground arith

-- The bucket of a pair after a failure.
pub find-record_failure :
    (ip account : Bytes) (now : ℕ) (l : Limiter)
    → is_empty account ≡ false
    → Inv l
    → find (pair_key ip account) (record_failure ip account now l).pair_buckets
      ≡ some (
          fail_bucket l.policy l.policy.pair_failure_limit l.policy.pair_block now
            (or_new (find (pair_key ip account) l.pair_buckets)))
unfolding count_operation fail_at
find-record_failure ip account now l a v =
    let k = pair_key ip account in
    let b =
      fail_bucket l.policy l.policy.pair_failure_limit l.policy.pair_block now
        (or_new (find k l.pair_buckets)) in
    let pairs = put k b l.pair_buckets in
    let found : find k pairs ≡ some b =
      ground (arith, find-put k k b l.pair_buckets, bytes_eq_refl k) in
    let kept =
      find-cleanup l.policy now k pairs b (put-HasUniqueKeys k b l.pair_buckets v.pairs) found
        (unfold fail_bucket in omega arith) in
    rw record_failure_lem (ground (arith, found, kept))

-- What `allow` decides: it asks for the address, then for the pair.
pub allow_lem :
    (ip account : Bytes) (now : ℕ) (l : Limiter)
    → (allow ip account now l).1
      ≡ not (blocked_at ip now l.ip_buckets)
        && (is_empty account || not (blocked_at (pair_key ip account) now l.pair_buckets))
unfolding allow
allow_lem ip account now l =
    let k = pair_key ip account in
    let e = blocked_at-prune_at l.policy ip ip now l.ip_buckets in
    let e2 = blocked_at-prune_at l.policy k k now l.pair_buckets in ground (arith, e, e2)
