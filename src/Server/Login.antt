-- ===== src/Server/Login.antt =====
-- im_server/src/auth/LoginRateLimiter.h and LoginRateLimiter.cpp. Times and durations count ticks of
-- the steady clock from its epoch. A test against `now - d` is written with `d` on the other side.
pub mod Buckets
pub mod Blocking
pub mod Repeats
pub mod Isolation
use jitong_app.Base.{
  ℕ, suc, ◌+◌, ◌%◌, max, Bool, true, false, not, ◌&&◌, Option, none, some, List, [], ◌∷◌, ◌++◌,
  Bytes, is_empty, ltb, leb, ◌==◌, if◌then◌else◌, length, keep,
}
use jitong_app.Base.Dict.{find, put, erase, bytes_Eq}

pub record Policy : Type 0 where
  pub pair_failure_limit : ℕ
  pub ip_failure_limit : ℕ
  pub window : ℕ
  pub pair_block : ℕ
  pub ip_block : ℕ

-- `failures` holds the oldest failure first.
pub record Bucket : Type 0 where
  pub failures : List ℕ
  pub blocked_until : ℕ
  pub last_seen : ℕ

abbrev pub BucketMap : Type 0
BucketMap = List (Bytes × Bucket)

pub record Limiter : Type 0 where
  pub policy : Policy
  pub ip_buckets : BucketMap
  pub pair_buckets : BucketMap
  pub operations : ℕ

-- The constructor: both limits are 1 at least.
unfoldable pub new : Policy → Limiter
new p = record {
  policy = record p {
    pair_failure_limit = max p.pair_failure_limit 1;
    ip_failure_limit = max p.ip_failure_limit 1;
  };
  ip_buckets = [];
  pair_buckets = [];
  operations = 0;
}

abbrev pub new_bucket : Bucket
new_bucket = record { failures = []; blocked_until = 0; last_seen = 0 }

abbrev pub or_new : Option Bucket → Bucket
or_new none = new_bucket
or_new (some b) = b

-- ip + '\n' + account
unfoldable pub pair_key : Bytes → Bytes → Bytes
pair_key ip account = ip ++ 10 ∷ account

-- The loop of `prune`.
unfoldable pub drop_old : ℕ → ℕ → List ℕ → List ℕ
drop_old window now [] = []
drop_old window now (t ∷ ts) = if ltb (t + window) now then drop_old window now ts else t ∷ ts

unfoldable pub prune : Policy → ℕ → Bucket → Bucket
unfolding drop_old
prune p now b = record b { failures = drop_old p.window now b.failures }

abbrev pub blocked : Bucket → ℕ → Bool
blocked b now = ltb now b.blocked_until

-- A bucket that is there is pruned in place.
unfoldable pub prune_at : Policy → Bytes → ℕ → BucketMap → BucketMap
prune_at p k now m = elim (find k m) [ none ↦ m | some b ↦ put k (prune p now b) m ]

unfoldable pub blocked_at : Bytes → ℕ → BucketMap → Bool
blocked_at k now m = elim (find k m) [ none ↦ false | some b ↦ blocked b now ]

unfoldable pub allow : Bytes → Bytes → ℕ → Limiter → Limiter × Bool
allow ip account now l =
    let l1 : Limiter = record l { ip_buckets = prune_at l.policy ip now l.ip_buckets } in
    if blocked_at ip now l1.ip_buckets
    then (l1, false)
    else if is_empty account
    then (l1, true)
    else let key = pair_key ip account in
      let l2 : Limiter = record l1 { pair_buckets = prune_at l.policy key now l.pair_buckets } in
      if blocked_at key now l2.pair_buckets then (l2, false) else (l2, true)

-- What a failure does to a bucket, with the limit and the block of its kind.
unfoldable pub fail_bucket : Policy → ℕ → ℕ → ℕ → Bucket → Bucket
unfolding prune
fail_bucket p limit block now b =
    let failures' = drop_old p.window now b.failures ++ now ∷ [] in
    record b {
      failures = failures';
      last_seen = now;
      blocked_until =
          if leb limit (length failures')
          then max b.blocked_until (now + block)
          else b.blocked_until;
    }

unfoldable pub fail_at : Policy → ℕ → ℕ → ℕ → Bytes → BucketMap → BucketMap
unfolding fail_bucket
fail_at p limit block now k m = put k (fail_bucket p limit block now (or_new (find k m))) m

-- cleanupMaps: the test of one bucket, and the loop over a map.
abbrev pub is_stale : Policy → ℕ → Bucket → Bool
is_stale p now b =
    ltb (b.last_seen + p.window + p.ip_block) now
    && leb (b.blocked_until + p.window + p.ip_block) now

unfoldable pub cleanup : Policy → ℕ → BucketMap → BucketMap
cleanup p now m = keep (λ (e : Bytes × Bucket). not (is_stale p now e.1)) m

abbrev pub u64 : ℕ → ℕ
u64 n = n % 18446744073709551616

unfoldable pub count_operation : ℕ → Limiter → Limiter
count_operation now l =
    let n = u64 (l.operations + 1) in
    if n % 256 == 0
    then record l {
      operations = n;
      ip_buckets = cleanup l.policy now l.ip_buckets;
      pair_buckets = cleanup l.policy now l.pair_buckets;
    }
    else record l { operations = n }

unfoldable pub record_failure : Bytes → Bytes → ℕ → Limiter → Limiter
record_failure ip account now l =
    let p = l.policy in
    let ips = fail_at p p.ip_failure_limit p.ip_block now ip l.ip_buckets in
    let pairs =
      if is_empty account
      then l.pair_buckets
      else fail_at p p.pair_failure_limit p.pair_block now (pair_key ip account) l.pair_buckets in
    count_operation now (record l { ip_buckets = ips; pair_buckets = pairs })

unfoldable pub record_success : Bytes → Bytes → Limiter → Limiter
record_success ip account l =
    if is_empty account
    then l
    else record l { pair_buckets = erase (pair_key ip account) l.pair_buckets }
