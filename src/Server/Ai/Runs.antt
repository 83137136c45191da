-- ===== src/Server/Ai/Runs.antt =====
-- AiRequestLimiter: the calls of AiHandler one after the other, and the number of requests in flight.
use jitong_app.Base.{
  ℕ, ◌≤◌, ◌≡◌, ◌⊎◌, refl, ◌∙◌, max, false, not, List, [], ◌∷◌, Bytes, ◌==◌, length, length-keep-le,
  arith,
}
use jitong_app.Base.Dict.{bytes_Eq, nat_eq}
use jitong_app.Server.Ai.{
  accepted, busy, duplicate, Limiter, new, contains, insert, remove, admit, try_acquire, release,
}

pub data Event : Type 0 where
  acquire : ℕ → Bytes → ℕ → Event
  finish : ℕ → Event

unfoldable pub step : Event → Limiter → Limiter
step (acquire user request_id now) l = (try_acquire user request_id now l).0
step (finish user) l = release user l

unfoldable pub run : List Event → Limiter → Limiter
run [] l = l
run (e ∷ es) l = run es (step e l)

-- The settings do not change.
pub record SameSettings (l l' : Limiter) : Type 0 where
  pub per_minute : l'.per_minute ≡ l.per_minute
  pub max_pending : l'.max_pending ≡ l.max_pending
  pub replay_window : l'.replay_window ≡ l.replay_window

pub step-SameSettings : (e : Event) (l : Limiter) → SameSettings l (step e l)
unfolding step try_acquire admit release
step-SameSettings (acquire user request_id now) l = ground arith
step-SameSettings (finish user) l = ground arith

pub record IsBounded (l : Limiter) : Type 0 where
  pub room : length l.in_flight_users ≤ l.max_pending

step-IsBounded : (e : Event) (l : Limiter) → IsBounded l → IsBounded (step e l)
unfolding step try_acquire admit insert release remove
step-IsBounded (acquire user request_id now) l b = ground arith
step-IsBounded (finish user) l b = record {
  room = ground (arith, length-keep-le (λ (y : ℕ). not (user == y)) l.in_flight_users);
}

pub run-IsBounded : (es : List Event) (l : Limiter) → IsBounded l → IsBounded (run es l)
unfolding run
run-IsBounded [] l b = b
run-IsBounded (e ∷ es) l b = run-IsBounded es (step e l) (step-IsBounded e l b)

pub run-SameSettings : (es : List Event) (l : Limiter) → SameSettings l (run es l)
unfolding run
run-SameSettings [] l = record { per_minute = refl; max_pending = refl; replay_window = refl }
run-SameSettings (e ∷ es) l =
    let a = step-SameSettings e l in
    let b = run-SameSettings es (step e l) in
    record {
      per_minute = b.per_minute ∙ a.per_minute;
      max_pending = b.max_pending ∙ a.max_pending;
      replay_window = b.replay_window ∙ a.replay_window;
    }

-- After any calls on a new limiter, at most `max_pending` requests are in flight (and at most one
-- where that is 0).
pub run_bounded :
    (per_minute max_pending window : ℕ) (es : List Event)
    → length (run es (new per_minute max_pending window)).in_flight_users ≤ max max_pending 1
unfolding new
run_bounded per_minute max_pending window es =
    let l = new per_minute max_pending window in
    ground (
      arith,
      (run-IsBounded es l (record { room = omega arith })).room,
      (run-SameSettings es l).max_pending,
    )

contains-remove : (user : ℕ) (s : List ℕ) → contains user (remove user s) ≡ false
unfolding contains remove
contains-remove user [] = refl
contains-remove user (y ∷ ys) = ground (arith, contains-remove user ys)

-- After an accepted request and until its release, the user's next one gets no admission: it is a
-- replay or the user is busy. After the release the user is not in flight, whatever happened before.
pub busy_until_release :
    (user : ℕ) (first second : Bytes) (now later : ℕ) (l : Limiter)
    → (try_acquire user first now l).1 ≡ accepted
    → ((try_acquire user second later (try_acquire user first now l).0).1 ≡ duplicate
        ⊎ (try_acquire user second later (try_acquire user first now l).0).1 ≡ busy)
      × (contains user (release user (try_acquire user first now l).0).in_flight_users ≡ false)
unfolding try_acquire admit insert contains release
busy_until_release user first second now later l h =
    ground (arith, contains-remove user (try_acquire user first now l).0.in_flight_users)
