-- ===== src/Sync/Tests.antt =====
-- The theorems about the sync state at concrete inputs.
use jitong_app.Base.{
  ℕ, ◌+◌, ◌*◌, ◌≤◌, ◌^◌, ◌-◌, min, max, ◌≡◌, refl, true, false, ◌&&◌, not, List, [], ◌∷◌, take,
  keep, arith, All, ◌⊎◌, some,
}
use jitong_app.Base.Dict.{find, put}
use jitong_app.Sync.Service.{
  Repository, start, first_tracker, tracker_for, earliest_of, next_retry_at,
}
use jitong_app.Sync.Service.Deadline.{has_time, IsNotAfter, next_retry_at_exact}
use jitong_app.Sync.Service.Shadow.{
  observes, fills, asks, asks_retry, step, run, Shadowed, changed, update-Shadowed,
}
use jitong_app.Sync.Ranges.{add_arrived, compute_gaps, contiguous, covers, insert_range}
use jitong_app.Sync.Ranges.Coverage.{in_interval, contiguous_exact}
use jitong_app.Sync.Tracker.{
  Tracker, default_config, new, observe_seq, fill_gap, gaps, pending_gaps, backoff_for,
  mark_gap_attempt_failed, restore,
}
use jitong_app.Sync.Tracker.Refines.{
  Inv, Report, observed, filled, tell, tell_all, names_any, tell_all_exact, tell_all_order,
}
use jitong_app.Sync.Tracker.Watermark.{observe_seq_advances, contiguous-tell}
use jitong_app.Sync.Tracker.Backoff.{backoff_for_exact}
use jitong_app.Sync.Tracker.Pending.{due, pending_gaps_exact}
use jitong_app.Sync.Tracker.Retries.{put_off_first, gaps-mark_gap_attempt_failed}
use jitong_app.Sync.Tracker.Restore.{IsTried, restore-gaps, IsTried-put}

-- 1, 2 and 5 have arrived: 3 and 4 are missing.
abbrev one_two_five : Tracker
one_two_five = record {
  config = default_config;
  max_seen = 5;
  arrived = record { from = 1; to = 2 } ∷ record { from = 5; to = 5 } ∷ [];
  retries = (3, record { attempt = 1; next_retry_at = 1500 }) ∷ [];
}

one_two_five-Inv : Inv one_two_five
one_two_five-Inv = record { normal = omega arith; seen = refl }

abbrev reports : List Report
reports = observed 5 ∷ observed 1 ∷ filled 1 2 ∷ []

reports_run : (tell_all reports (new default_config)).arrived ≡ one_two_five.arrived
unfolding tell_all tell observe_seq fill_gap add_arrived insert_range new
reports_run = refl

gaps_run : compute_gaps one_two_five.arrived ≡ record { from = 3; to = 4 } ∷ []
unfolding compute_gaps
gaps_run = refl

backoff_run : backoff_for default_config 4 ≡ 8000
unfolding backoff_for
backoff_run = refl

contiguous_exact_run :
    ((x : ℕ) → 1 ≤ x → x ≤ contiguous one_two_five.arrived → covers x one_two_five.arrived ≡ true)
    × (covers (contiguous one_two_five.arrived + 1) one_two_five.arrived ≡ false)
contiguous_exact_run = contiguous_exact one_two_five.arrived (omega arith)

tell_all_exact_example :
    let t = tell_all reports (new default_config) in
    Inv t
    × ((x : ℕ) → covers x t.arrived ≡ names_any x reports)
    × ((x : ℕ)
        → covers x (compute_gaps t.arrived)
          ≡ (in_interval 1 t.max_seen x && not (names_any x reports)))
tell_all_exact_example = tell_all_exact default_config reports (omega arith)

tell_all_order_run :
    let t = tell_all reports (new default_config) in
    let u = tell_all (observed 1 ∷ observed 2 ∷ observed 5 ∷ []) (new default_config) in
    (t.arrived ≡ u.arrived) × (t.max_seen ≡ u.max_seen)
tell_all_order_run =
    tell_all_order default_config reports (observed 1 ∷ observed 2 ∷ observed 5 ∷ []) (omega arith)
      tt (λ x. ground arith)

observe_seq_advances_run : (observe_seq 3 one_two_five).1 ≡ true
unfolding contiguous
observe_seq_advances_run = observe_seq_advances 3 one_two_five one_two_five-Inv

contiguous-tell_run :
    contiguous one_two_five.arrived ≤ contiguous (tell (filled 3 4) one_two_five).arrived
contiguous-tell_run = contiguous-tell (filled 3 4) one_two_five (omega arith) one_two_five-Inv

backoff_for_exact_run : backoff_for default_config 4 ≡ min (1000 * 2 ^ (4 - 1)) 60000
backoff_for_exact_run = backoff_for_exact default_config 4

pending_gaps_exact_run :
    pending_gaps 2000 one_two_five ≡ take (max 1 3) (keep (due 2000) (gaps one_two_five))
pending_gaps_exact_run = pending_gaps_exact 2000 one_two_five

gaps-mark_gap_attempt_failed_run :
    gaps (mark_gap_attempt_failed 2000 one_two_five)
    ≡ put_off_first default_config 2000 (gaps one_two_five)
gaps-mark_gap_attempt_failed_run = gaps-mark_gap_attempt_failed 2000 one_two_five one_two_five-Inv

one_two_five-IsTried : IsTried one_two_five.retries
unfolding put
one_two_five-IsTried =
    IsTried-put 3 (record { attempt = 1; next_retry_at = 1500 }) [] (omega arith)
      (unfold find in λ k i e. cc)

restore-gaps_run :
    ((restore one_two_five.arrived (gaps one_two_five) (new default_config)).arrived
      ≡ one_two_five.arrived)
    × (gaps (restore one_two_five.arrived (gaps one_two_five) (new default_config))
        ≡ gaps one_two_five)
restore-gaps_run =
    restore-gaps one_two_five (new default_config) one_two_five-Inv one_two_five-IsTried

-- The messages 1, 2 and 5 of the conversation 4 are stored; 3 and 4 were tried once.
abbrev stored : Repository
stored = record {
  ranges = (4, record { from = 1; to = 2 } ∷ record { from = 5; to = 5 } ∷ []) ∷ [];
  sync_gaps = (4, record { from = 3; to = 4; attempt = 1; next_retry_at = 1500 } ∷ []) ∷ [];
  loads = true;
  replaces = true;
}

next_retry_run : (next_retry_at 4 (start 7 (some stored))).1 ≡ 1500
unfolding next_retry_at start first_tracker restore earliest_of gaps compute_gaps add_arrived
    insert_range new put find
next_retry_run = refl

next_retry_at_exact_run :
    let e = (next_retry_at 4 (start 7 (some stored))).1 in
    let gs = gaps (tracker_for 4 (start 7 (some stored))).1 in
    All (IsNotAfter e) gs × ((e ≡ 0) ⊎ (has_time e gs ≡ true))
next_retry_at_exact_run = next_retry_at_exact 4 (start 7 (some stored)) (omega arith)

update-Shadowed_example :
    Shadowed 4 (changed (observes 4 7) (tracker_for 4 (start 7 (some stored))).1) (
      run
        (asks 5 2000 ∷ asks_retry 8 ∷ fills 6 1 3 ∷ [])
        (step (observes 4 7) (start 7 (some stored))))
unfolding start
update-Shadowed_example =
    update-Shadowed (observes 4 7) (asks 5 2000 ∷ asks_retry 8 ∷ fills 6 1 3 ∷ [])
      (start 7 (some stored)) stored refl refl refl
      ((λ e. omega (arith, e)), ((λ e. omega (arith, e)), ((λ e. omega (arith, e)), tt)))
