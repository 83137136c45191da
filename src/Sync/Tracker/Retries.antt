-- ===== src/Sync/Tracker/Retries.antt =====
-- `markGapAttemptFailed`: only the first gap is put off.
use jitong_app.Base.{ℕ, ◌+◌, ◌-◌, ◌≤◌, ◌<◌, ◌≡◌, refl, List, [], ◌∷◌, map, arith}
use jitong_app.Base.Dict.{find, put, find-put, nat_eq}
use jitong_app.Sync.Ranges.{Range, gaps_between, compute_gaps}
use jitong_app.Sync.Ranges.Normal.{IsNormalFrom, IsNormal}
use jitong_app.Sync.Tracker.{
  Config, Tracker, Gap, RetryInfo, backoff_for, mark_gap_attempt_failed, failed_once, or_no_retry,
  with_retry, gaps,
}
use jitong_app.Sync.Tracker.Refines.{Inv}

-- The gaps of a list: each begins at `b` or above, holds a number, and ends before the next.
abbrev pub IsAscending : ℕ → List Range → Type 0
IsAscending b [] = Unit {0}
IsAscending b (g ∷ gs) = (b ≤ g.from) × (g.from ≤ g.to) × IsAscending (g.to + 1) gs

IsAscending-mono : (b c : ℕ) (gs : List Range) → c ≤ b → IsAscending b gs → IsAscending c gs
IsAscending-mono b c [] h a = tt
IsAscending-mono b c (g ∷ gs) h a = (omega arith, a.1, a.2)

gaps_between-IsAscending :
    (r : Range) (rs : List Range)
    → IsNormalFrom (r.to + 2) rs
    → IsAscending (r.to + 1) (gaps_between r rs)
unfolding gaps_between
gaps_between-IsAscending r [] n = tt
gaps_between-IsAscending r (s ∷ rs) n = ground (
  arith,
  gaps_between-IsAscending s rs,
  IsAscending-mono (s.to + 1) s.from (gaps_between s rs),
  IsAscending-mono (s.to + 1) (s.from - 1 + 1) (gaps_between s rs),
)

pub compute_gaps-IsAscending : (rs : List Range) → IsNormal rs → IsAscending 1 (compute_gaps rs)
unfolding compute_gaps
compute_gaps-IsAscending [] n = tt
compute_gaps-IsAscending (r ∷ rs) n = ground (
  arith,
  gaps_between-IsAscending r rs,
  IsAscending-mono (r.to + 1) (r.from - 1 + 1) (gaps_between r rs),
  IsAscending-mono (r.to + 1) 1 (gaps_between r rs),
)

with_retry-put :
    (k b : ℕ) (i : RetryInfo) (m : List (ℕ × RetryInfo)) (gs : List Range)
    → k < b
    → IsAscending b gs
    → map (with_retry (put k i m)) gs ≡ map (with_retry m) gs
unfolding with_retry
with_retry-put k b i m [] h a = refl
with_retry-put k b i m (g ∷ gs) h a =
    ground (arith, find-put k g.from i m, with_retry-put k (g.to + 1) i m gs)

-- The data of a gap after one more failure at time `now`.
abbrev pub put_off : Config → ℕ → Gap → Gap
put_off c now g = record g {
  attempt = g.attempt + 1;
  next_retry_at = now + backoff_for c (g.attempt + 1);
}

abbrev pub put_off_first : Config → ℕ → List Gap → List Gap
put_off_first c now [] = []
put_off_first c now (g ∷ gs) = put_off c now g ∷ gs

mark_first_lem :
    (now : ℕ) (t : Tracker) (gs : List Range)
    → IsAscending 1 gs
    → compute_gaps t.arrived ≡ gs
    → gaps (mark_gap_attempt_failed now t)
      ≡ put_off_first t.config now (map (with_retry t.retries) gs)
unfolding gaps mark_gap_attempt_failed with_retry
mark_first_lem now t [] a e = ground arith
mark_first_lem now t (g ∷ gs) a e =
    let i = failed_once t.config now (or_no_retry (find g.from t.retries)) in
    rw (e, mark_gap_attempt_failed)
      (rw e (
        ground (
          arith,
          find-put g.from g.from i t.retries,
          with_retry-put g.from (g.to + 1) i t.retries gs,
        )))

-- A failure puts off the first gap by the delay of its next attempt, counts the attempt, and
-- leaves every other gap as it was, provided that the tracker satisfies its invariant.
pub gaps-mark_gap_attempt_failed :
    (now : ℕ) (t : Tracker)
    → Inv t
    → gaps (mark_gap_attempt_failed now t) ≡ put_off_first t.config now (gaps t)
unfolding gaps
gaps-mark_gap_attempt_failed now t v =
    mark_first_lem now t (compute_gaps t.arrived) (compute_gaps-IsAscending t.arrived v.normal) refl
