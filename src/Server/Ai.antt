-- ===== src/Server/Ai.antt =====
-- im_server/src/ai/AiRequestLimiter.h and AiRequestLimiter.cpp. Times count milliseconds of the steady
-- clock from its epoch; a test against `now - d` is written with `d` on the other side. A set and a
-- hash map are association lists with unique keys.
pub mod Runs
pub mod Rate
pub mod Replay
use jitong_app.Base.{
  ℕ, suc, ◌+◌, ◌*◌, max, Bool, true, false, not, ◌||◌, Option, none, some, List, [], ◌∷◌, ◌++◌,
  Bytes, ltb, leb, ◌==◌, if◌then◌else◌, length, keep,
}
use jitong_app.Base.Dict.{find, put, bytes_Eq, nat_eq}

pub data Outcome : Type 0 where
  accepted : Outcome
  busy : Outcome
  rate_limited : Outcome
  duplicate : Outcome
  queue_full : Outcome

abbrev pub Seen : Type 0
Seen = List (Bytes × ℕ)

pub record Limiter : Type 0 where
  pub per_minute : ℕ
  pub max_pending : ℕ
  pub replay_window : ℕ
  pub in_flight_users : List ℕ
  pub recent_requests : List (ℕ × List ℕ)
  pub seen_ids : List (ℕ × Seen)

unfoldable pub new : ℕ → ℕ → ℕ → Limiter
new per_minute max_pending replay_window_seconds = record {
  per_minute = max per_minute 1;
  max_pending = max max_pending 1;
  replay_window = 1000 * max replay_window_seconds 1;
  in_flight_users = [];
  recent_requests = [];
  seen_ids = [];
}

abbrev pub minute : ℕ
minute = 60000

-- `map[key]` on a map of containers.
abbrev pub or_empty {ℓ} : {A : Type ℓ} → Option (List A) → List A
or_empty none = []
or_empty (some xs) = xs

-- The three calls of `inFlightUsers_`.
unfoldable pub contains : ℕ → List ℕ → Bool
contains x [] = false
contains x (y ∷ ys) = x == y || contains x ys

unfoldable pub insert : ℕ → List ℕ → List ℕ
insert x s = if contains x s then s else x ∷ s

unfoldable pub remove : ℕ → List ℕ → List ℕ
remove x s = keep (λ (y : ℕ). not (x == y)) s

abbrev pub is_seen : Option ℕ → Bool
is_seen none = false
is_seen (some t) = true

-- The erase loop over `seen`.
unfoldable pub forget_old : ℕ → ℕ → Seen → Seen
forget_old window now seen = keep (λ (e : Bytes × ℕ). leb now (e.1 + window)) seen

-- The pop_front loop over `recent`.
unfoldable pub drop_old : ℕ → List ℕ → List ℕ
drop_old now [] = []
drop_old now (t ∷ ts) = if ltb (t + minute) now then drop_old now ts else t ∷ ts

-- The branches after the replay test, in the code's order.
unfoldable pub admit : ℕ → Bytes → ℕ → Seen → Limiter → Limiter × Outcome
unfolding drop_old
admit user request_id now seen l =
    if contains user l.in_flight_users
    then (l, busy)
    else if leb l.max_pending (length l.in_flight_users)
    then (l, queue_full)
    else let recent = drop_old now (or_empty (find user l.recent_requests)) in
      if leb l.per_minute (length recent)
      then (record l { recent_requests = put user recent l.recent_requests }, rate_limited)
      else (
        record l {
          recent_requests = put user (recent ++ now ∷ []) l.recent_requests;
          seen_ids = put user (put request_id now seen) l.seen_ids;
          in_flight_users = insert user l.in_flight_users;
        },
        accepted,
      )

unfoldable pub try_acquire : ℕ → Bytes → ℕ → Limiter → Limiter × Outcome
unfolding forget_old admit
try_acquire user request_id now l =
    let seen = forget_old l.replay_window now (or_empty (find user l.seen_ids)) in
    let l1 : Limiter = record l { seen_ids = put user seen l.seen_ids } in
    if is_seen (find request_id seen) then (l1, duplicate) else admit user request_id now seen l1

unfoldable pub release : ℕ → Limiter → Limiter
release user l = record l { in_flight_users = remove user l.in_flight_users }
