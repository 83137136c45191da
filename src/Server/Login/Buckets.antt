-- ===== src/Server/Login/Buckets.antt =====
-- The buckets of LoginRateLimiter: what pruning, a failure and a cleanup do to one key.
use jitong_app.Base.{
  ℕ, ◌+◌, ◌≤◌, ◌≡◌, refl, sym, ap, ◌∙◌, not, some, List, [], ◌∷◌, ◌++◌, Bytes, bytes_eq,
  bytes_eq_iff, ltb, if◌then◌else◌, All, arith, Option-cases, inl, inr,
}
use jitong_app.Base.Dict.{find, find-put, find-keep, HasUniqueKeys, bytes_Eq}
use jitong_app.Server.Login.{
  Policy, Bucket, BucketMap, or_new, drop_old, prune, prune_at, blocked_at, fail_bucket, fail_at,
  is_stale, cleanup,
}

-- When the block of a key ends; 0 where it has no bucket.
pub blocked_until_at : Bytes → BucketMap → ℕ
blocked_until_at k m = (or_new (find k m)).blocked_until

pub blocked_at_lem :
    (k : Bytes) (now : ℕ) (m : BucketMap) → blocked_at k now m ≡ ltb now (blocked_until_at k m)
unfolding blocked_at blocked_until_at
blocked_at_lem k now m = ground arith

pub blocked_until_at-prune_at :
    (p : Policy) (k j : Bytes) (now : ℕ) (m : BucketMap)
    → blocked_until_at j (prune_at p k now m) ≡ blocked_until_at j m
unfolding blocked_until_at prune_at prune
blocked_until_at-prune_at p k j now m = elim (Option-cases (find k m)) [
  | inl e ↦ rw (e, prune_at)
  | inr (b, e) ↦
      rw (e, prune_at) (ground (arith, e, find-put k j (prune p now b) m, bytes_eq_iff j k))
]

pub blocked_at-prune_at :
    (p : Policy) (k j : Bytes) (now : ℕ) (m : BucketMap)
    → blocked_at j now (prune_at p k now m) ≡ blocked_at j now m
blocked_at-prune_at p k j now m =
    blocked_at_lem j now (prune_at p k now m)
    ∙ ap (λ (t : ℕ). ltb now t) (blocked_until_at-prune_at p k j now m)
    ∙ sym (blocked_at_lem j now m)

pub blocked_until_at-fail_at :
    (p : Policy) (limit block now : ℕ) (k j : Bytes) (m : BucketMap)
    → blocked_until_at j (fail_at p limit block now k m) ≡ (
        if bytes_eq j k
        then (fail_bucket p limit block now (or_new (find k m))).blocked_until
        else blocked_until_at j m)
unfolding blocked_until_at fail_at
blocked_until_at-fail_at p limit block now k j m =
    ground
      (arith, find-put k j (fail_bucket p limit block now (or_new (find k m))) m, bytes_eq_iff j k)

-- A cleanup may forget a key, but only one whose block is over.
pub blocked_at-cleanup :
    (p : Policy) (now later : ℕ) (k : Bytes) (m : BucketMap)
    → HasUniqueKeys m
    → now ≤ later
    → blocked_at k later (cleanup p now m) ≡ blocked_at k later m
unfolding blocked_at cleanup
blocked_at-cleanup p now later k m u h =
    rw (find-keep (λ (e : Bytes × Bucket). not (is_stale p now e.1)) k m u, blocked_at)
      (ground arith)

-- A bucket that has just seen a failure survives the cleanup.
pub find-cleanup :
    (p : Policy) (now : ℕ) (k : Bytes) (m : BucketMap) (b : Bucket)
    → HasUniqueKeys m
    → find k m ≡ some b
    → now ≤ b.last_seen
    → find k (cleanup p now m) ≡ some b
unfolding cleanup
find-cleanup p now k m b u e h =
    rw (find-keep (λ (e : Bytes × Bucket). not (is_stale p now e.1)) k m u, e) (ground arith)

-- Failures that are not older than the window are kept.
pub drop_old-append :
    (window now : ℕ) (old new : List ℕ)
    → All (λ (t : ℕ). now ≤ t + window) new
    → drop_old window now (old ++ new) ≡ drop_old window now old ++ new
unfolding drop_old
drop_old-append window now [] [] h = refl
drop_old-append window now [] (t ∷ new) h = ground arith
drop_old-append window now (t ∷ old) new h = ground (arith, drop_old-append window now old new)
