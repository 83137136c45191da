-- ===== src/Sync/Tracker.antt =====
-- SyncTracker of SyncTracker.h: the arrived ranges of one conversation, the largest number seen,
-- and the retry times of the gaps. `int64_t` values are natural numbers here: the callers in
-- SyncService.cpp refuse the others, and `observeSeq` treats them as 0.
pub mod Refines
pub mod Watermark
pub mod Backoff
pub mod Pending
pub mod Retries
pub mod Restore
use jitong_app.Base.{
  ℕ, zero, suc, ◌+◌, ◌-◌, ◌*◌, min, max, ◌≡◌, refl, Bool, true, false, not, ◌&&◌, Option, none,
  some, List, [], ◌∷◌, map, ltb, leb, ◌==◌, if◌then◌else◌, length,
}
use jitong_app.Base.Dict.{find, put, nat_eq}
use jitong_app.Sync.Ranges.{Range, add_arrived, compute_gaps, contiguous}

pub record Gap : Type 0 where
  pub from : ℕ
  pub to : ℕ
  pub attempt : ℕ
  pub next_retry_at : ℕ

pub record Config : Type 0 where
  pub owner_id : ℕ
  pub conversation_id : ℕ
  pub max_pages_per_pass : ℕ
  pub max_gaps_per_pass : ℕ
  pub base_backoff : ℕ
  pub max_backoff : ℕ

-- The defaults of the source.
abbrev pub default_config : Config
default_config = record {
  owner_id = 0;
  conversation_id = 0;
  max_pages_per_pass = 5;
  max_gaps_per_pass = 3;
  base_backoff = 1000;
  max_backoff = 60 * 1000;
}

pub record RetryInfo : Type 0 where
  pub attempt : ℕ
  pub next_retry_at : ℕ

pub record Tracker : Type 0 where
  pub config : Config
  pub max_seen : ℕ
  pub arrived : List Range
  pub retries : List (ℕ × RetryInfo)

unfoldable pub new : Config → Tracker
new c = record { config = c; max_seen = 0; arrived = []; retries = [] }

-- `if (v > m_maxSeen) m_maxSeen = v`
abbrev raise_max : ℕ → ℕ → ℕ
raise_max v m = if ltb m v then v else m

unfoldable pub observe_seq : ℕ → Tracker → Tracker × Bool
observe_seq seq t =
    if leb seq 0
    then (t, false)
    else let arrived' = add_arrived seq seq t.arrived in
      (
        record t { max_seen = raise_max seq t.max_seen; arrived = arrived' },
        ltb (contiguous t.arrived) (contiguous arrived'),
      )

unfoldable pub fill_gap : ℕ → ℕ → Tracker → Tracker
fill_gap from to t =
    if ltb to from
    then t
    else record t { max_seen = raise_max to t.max_seen; arrived = add_arrived from to t.arrived }

-- The loop of `backoffFor`, by the rounds left.
unfoldable pub backoff_loop : ℕ → ℕ → ℕ → ℕ
backoff_loop zero limit v = v
backoff_loop (suc n) limit v =
    let rest = backoff_loop n limit (v * 2) in if ltb v limit then rest else v

unfoldable pub backoff_for : Config → ℕ → ℕ
unfolding backoff_loop
backoff_for c attempt = min (backoff_loop (attempt - 1) c.max_backoff c.base_backoff) c.max_backoff

abbrev no_retry : RetryInfo
no_retry = record { attempt = 0; next_retry_at = 0 }

abbrev pub or_no_retry : Option RetryInfo → RetryInfo
or_no_retry none = no_retry
or_no_retry (some i) = i

-- The retry data of one more failure of the gap that starts at `from`, at time `now`.
unfoldable pub failed_once : Config → ℕ → RetryInfo → RetryInfo
failed_once c now i = record {
  attempt = i.attempt + 1;
  next_retry_at = now + backoff_for c (i.attempt + 1);
}

mark_first : List Range → ℕ → Tracker → Tracker
unfolding failed_once
mark_first [] now t = t
mark_first (g ∷ gs) now t = record t {
  retries = put g.from (failed_once t.config now (or_no_retry (find g.from t.retries))) t.retries;
}

unfoldable pub mark_gap_attempt_failed : ℕ → Tracker → Tracker
unfolding mark_first
mark_gap_attempt_failed now t = mark_first (compute_gaps t.arrived) now t

unfoldable pub with_retry : List (ℕ × RetryInfo) → Range → Gap
with_retry retries g =
    let i = or_no_retry (find g.from retries) in
    record { from = g.from; to = g.to; attempt = i.attempt; next_retry_at = i.next_retry_at }

-- `gapsWithRetry`, which is also `gaps()`.
unfoldable pub gaps : Tracker → List Gap
unfolding with_retry
gaps t = map (with_retry t.retries) (compute_gaps t.arrived)

-- The loop of `pendingGaps`; `n` gaps are in the output already.
unfoldable pub pending_from : ℕ → ℕ → ℕ → List Gap → List Gap
pending_from now limit n [] = []
pending_from now limit n (g ∷ gs) =
    let skipped = pending_from now limit n gs in
    let rest = pending_from now limit (n + 1) gs in
    if ltb now g.next_retry_at then skipped else if leb limit (n + 1) then g ∷ [] else g ∷ rest

unfoldable pub pending_gaps : ℕ → Tracker → List Gap
unfolding pending_from
pending_gaps now t = pending_from now t.config.max_gaps_per_pass 0 (gaps t)

-- `!computeGaps().empty()`
unfoldable pub has_gaps : Tracker → Bool
has_gaps t = not (leb (length (compute_gaps t.arrived)) 0)

-- The bodies and the loops of `restore`: invalid ranges and retry data among the stored rows are
-- left out.
restore_range : Range → Tracker → Tracker
restore_range r t =
    if ltb 0 r.from && leb r.from r.to
    then record t { arrived = add_arrived r.from r.to t.arrived; max_seen = max t.max_seen r.to }
    else t

restore_ranges : List Range → Tracker → Tracker
unfolding restore_range
restore_ranges [] t = t
restore_ranges (r ∷ rs) t = restore_ranges rs (restore_range r t)

restore_gap : Gap → Tracker → Tracker
restore_gap g t =
    if ltb 0 g.from && leb g.from g.to && ltb 0 g.attempt
    then record t {
      retries =
          put g.from (record { attempt = g.attempt; next_retry_at = g.next_retry_at }) t.retries;
    }
    else t

restore_gaps : List Gap → Tracker → Tracker
restore_gaps [] t = t
restore_gaps (g ∷ gs) t = restore_gaps gs (restore_gap g t)

unfoldable pub restore : List Range → List Gap → Tracker → Tracker
unfolding restore_ranges restore_gaps restore_gap
restore rs gs t =
    restore_gaps gs (restore_ranges rs (record t { arrived = []; retries = []; max_seen = 0 }))
