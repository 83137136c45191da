-- ===== src/Sync/Service.antt =====
-- client_core/include/client_core/sync/SyncService.h and src/sync/SyncService.cpp. The repository is
-- the part of NativeRepository that the service calls: the sequence ranges of the stored messages,
-- the table of gaps, and whether its loads and its replacement succeed. The clock is the argument
-- `now`; the error texts are not modelled.
pub mod Shadow
pub mod Deadline
use jitong_app.Base.{
  ℕ, Bool, true, false, ◌&&◌, ◌||◌, Option, none, some, List, [], ◌∷◌, ltb, leb, ◌==◌,
  if◌then◌else◌,
}
use jitong_app.Base.Dict.{find, put, nat_eq}
use jitong_app.Sync.Ranges.{Range, contiguous}
use jitong_app.Sync.Tracker.{
  Gap, Config, default_config, Tracker, new, observe_seq, fill_gap, mark_gap_attempt_failed,
  pending_gaps, gaps, has_gaps, restore,
}

pub record Repository : Type 0 where
  pub ranges : List (ℕ × List Range)
  pub sync_gaps : List (ℕ × List Gap)
  pub loads : Bool
  pub replaces : Bool

pub record Service : Type 0 where
  pub owner_id : ℕ
  pub repo : Option Repository
  pub trackers : List (ℕ × Tracker)

unfoldable pub start : ℕ → Option Repository → Service
start owner_id repo = record { owner_id = owner_id; repo = repo; trackers = [] }

abbrev pub rows_of {ℓ} : {A : Type ℓ} → Option (List A) → List A
rows_of none = []
rows_of (some rows) = rows

-- What `trackerFor` makes of a conversation that it does not know.
unfoldable pub first_tracker : ℕ → ℕ → Option Repository → Tracker
first_tracker owner_id conversation_id none =
    new (record default_config { owner_id = owner_id; conversation_id = conversation_id })
first_tracker owner_id conversation_id (some repo) =
    let fresh =
      new (record default_config { owner_id = owner_id; conversation_id = conversation_id }) in
    if repo.loads
    then restore (rows_of (find conversation_id repo.ranges))
        (rows_of (find conversation_id repo.sync_gaps)) fresh
    else fresh

-- `trackerFor`: the service with the tracker in its map, and the tracker.
unfoldable pub tracker_for : ℕ → Service → Service × Tracker
unfolding first_tracker
tracker_for conversation_id s = elim (find conversation_id s.trackers) [
  | some t ↦ (s, t)
  | none ↦
      let t = first_tracker s.owner_id conversation_id s.repo in
      (record s { trackers = put conversation_id t s.trackers }, t)
]

abbrev pub replace_gaps : ℕ → List Gap → Option Repository → Option Repository
replace_gaps conversation_id rows none = none
replace_gaps conversation_id rows (some repo) =
    if repo.replaces
    then some (record repo { sync_gaps = put conversation_id rows repo.sync_gaps })
    else some repo

-- The tracker of the conversation is changed in place, and then `persistGaps` runs.
unfoldable pub update : ℕ → (Tracker → Tracker) → Service → Service
unfolding tracker_for
update conversation_id change s =
    let r = tracker_for conversation_id s in
    let t = change r.1 in
    record s {
      trackers = put conversation_id t r.0.trackers;
      repo = replace_gaps conversation_id (gaps t) s.repo;
    }

abbrev pub observed : ℕ → Tracker → Tracker
observed seq t = (observe_seq seq t).0

unfoldable pub observe : ℕ → ℕ → Service → Service × Bool
unfolding update
observe conversation_id seq s =
    if leb conversation_id 0 || leb seq 0
    then (s, false)
    else (update conversation_id (observed seq) s, true)

unfoldable pub fill : ℕ → ℕ → ℕ → Service → Service × Bool
unfolding update
fill conversation_id from to s =
    if leb conversation_id 0 || (leb from 0 || ltb to from)
    then (s, false)
    else (update conversation_id (fill_gap from to) s, true)

unfoldable pub mark_gap_failed : ℕ → ℕ → Service → Service × Bool
unfolding update
mark_gap_failed conversation_id now s =
    if leb conversation_id 0
    then (s, false)
    else (update conversation_id (mark_gap_attempt_failed now) s, true)

-- The queries look the tracker up, and so may add it.
unfoldable pub pending : ℕ → ℕ → Service → Service × List Gap
unfolding tracker_for
pending conversation_id now s =
    if leb conversation_id 0
    then (s, [])
    else let r = tracker_for conversation_id s in (r.0, pending_gaps now r.1)

unfoldable pub contiguous_seq : ℕ → Service → Service × ℕ
unfolding tracker_for
contiguous_seq conversation_id s =
    if leb conversation_id 0
    then (s, 0)
    else let r = tracker_for conversation_id s in (r.0, contiguous r.1.arrived)

unfoldable pub max_seen_seq : ℕ → Service → Service × ℕ
unfolding tracker_for
max_seen_seq conversation_id s =
    if leb conversation_id 0
    then (s, 0)
    else let r = tracker_for conversation_id s in (r.0, r.1.max_seen)

unfoldable pub any_gaps : ℕ → Service → Service × Bool
unfolding tracker_for
any_gaps conversation_id s =
    if leb conversation_id 0
    then (s, false)
    else let r = tracker_for conversation_id s in (r.0, has_gaps r.1)

-- The loop of `nextRetryAtMs`.
unfoldable pub earliest_of : ℕ → List Gap → ℕ
earliest_of earliest [] = earliest
earliest_of earliest (g ∷ gs) =
    let at = g.next_retry_at in
    earliest_of (if ltb 0 at && (earliest == 0 || ltb at earliest) then at else earliest) gs

unfoldable pub next_retry_at : ℕ → Service → Service × ℕ
unfolding tracker_for earliest_of
next_retry_at conversation_id s =
    if leb conversation_id 0
    then (s, 0)
    else let r = tracker_for conversation_id s in (r.0, earliest_of 0 (gaps r.1))
