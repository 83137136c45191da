-- ===== src/Server/Tests.antt =====
-- Runs of LoginRateLimiter and AiRequestLimiter.
use jitong_app.Base.{
  Bool, true, none, some, ◌==◌, ℕ, ◌+◌, ◌≤◌, ◌≡◌, ◌⊎◌, refl, max, false, not, List, [], ◌∷◌, length,
  Bytes, codes, bytes_eq, arith, leb, count_of, if◌then◌else◌,
}
use jitong_app.Base.Dict.{nat_eq, find, put}
use jitong_app.Server.Login.{
  Policy, Limiter, new, allow, record_failure, record_success, pair_key, blocked_at,
}
use jitong_app.Server.Login.Blocking.{Inv}
use jitong_app.Server.Login.Repeats.{fail_times, repeated_failures_block}
use jitong_app.Server.Login.Isolation.{IsAddress, record_failure_isolated, record_success_lem}
use jitong_app.Server.Presence.{Presence, online, replace, get, scan_stale}
use jitong_app.Server.Presence.Ownership
use jitong_app.Server.Presence.Ownership.{
  logs_in, comes_online, goes_off, sends, scans, login_survives, scan_stale_exact,
}
use jitong_app.Server.Router.{Handler, Handlers, route_list, dispatcher, has_handler, handle}
use jitong_app.Server.Router.Routes.{handle_lem}
use jitong_app.Server.Ai
use jitong_app.Server.Ai.{try_acquire, accepted, busy, duplicate, release, minute}
use jitong_app.Server.Ai.Runs.{Event, acquire, finish, run, run_bounded, busy_until_release}
use jitong_app.Server.Ai.Rate.{accepted_of, accepted_per_minute}
use jitong_app.Server.Ai.Replay.{seen_of, replay_refused}

-- The policy of the header, with its times in seconds.
abbrev policy : Policy
policy = record {
  pair_failure_limit = 5;
  ip_failure_limit = 30;
  window = 300;
  pair_block = 60;
  ip_block = 300;
}

abbrev home : Bytes
home = codes "10.0.0.7"

abbrev other : Bytes
other = codes "10.0.0.8"

abbrev account : Bytes
account = codes "lin"

abbrev fresh : Limiter
fresh = new policy

fresh-Inv : Inv fresh
unfolding new
fresh-Inv = record { ips = tt; pairs = tt }

abbrev four_times : List ℕ
four_times = 1000 ∷ 1010 ∷ 1020 ∷ 1030 ∷ []

repeated_failures_block_example :
    (allow home account 1099
      (record_failure home account 1040 (fail_times home account four_times fresh))).1
    ≡ false
unfolding new
repeated_failures_block_example =
    repeated_failures_block home account 1000 1040 1099 four_times fresh refl fresh-Inv
      (
        (omega arith, omega arith),
        (
          (omega arith, omega arith),
          ((omega arith, omega arith), ((omega arith, omega arith), tt)),
        ),
      )
      (omega arith, omega arith) (omega arith) (omega arith)

home-IsAddress : IsAddress home
home-IsAddress = (
  (omega arith),
  (
    (omega arith),
    (
      (omega arith),
      ((omega arith), ((omega arith), ((omega arith), ((omega arith), ((omega arith), tt))))),
    ),
  ),
)

other-IsAddress : IsAddress other
other-IsAddress = (
  (omega arith),
  (
    (omega arith),
    (
      (omega arith),
      ((omega arith), ((omega arith), ((omega arith), ((omega arith), ((omega arith), tt))))),
    ),
  ),
)

record_failure_isolated_run :
    (allow other account 1050 (record_failure home account 1040 fresh)).1
    ≡ (allow other account 1050 fresh).1
unfolding bytes_eq
record_failure_isolated_run =
    record_failure_isolated home account other account 1040 1050 fresh fresh-Inv home-IsAddress
      other-IsAddress refl (omega arith)

record_success_lem_run :
    (allow home account 1050
      (record_success home account (record_failure home account 1040 fresh))).1
    ≡ (if bytes_eq (pair_key home account) (pair_key home account)
        then not (blocked_at home 1050 (record_failure home account 1040 fresh).ip_buckets)
        else (allow home account 1050 (record_failure home account 1040 fresh)).1)
record_success_lem_run =
    record_success_lem home account home account 1050 (record_failure home account 1040 fresh) refl

abbrev calls : List Event
calls =
    acquire 7 (codes "a") 1000
    ∷ acquire 7 (codes "b") 1500
    ∷ finish 7
    ∷ acquire 7 (codes "c") 2000
    ∷ finish 7
    ∷ acquire 7 (codes "d") 2500
    ∷ finish 7
    ∷ []

-- Two a minute: "b" meets a busy user and "d" the rate.
calls_run : accepted_of 7 calls (Ai.new 2 8 60) ≡ 1000 ∷ 2000 ∷ []
unfolding accepted_of Ai.new try_acquire Ai.admit Ai.forget_old Ai.drop_old Ai.contains Ai.insert
    Ai.remove release find put bytes_eq
calls_run = refl

accepted_per_minute_example :
    count_of (λ (t : ℕ). leb 2500 (t + minute)) (accepted_of 7 calls (Ai.new 2 8 60)) ≤ max 2 1
accepted_per_minute_example =
    accepted_per_minute 7 2 8 60 2500 calls
      (omega arith, (omega arith, (omega arith, (omega arith, omega arith))))

run_bounded_run : length (run calls (Ai.new 2 8 60)).in_flight_users ≤ max 8 1
run_bounded_run = run_bounded 2 8 60 calls

busy_until_release_run :
    ((try_acquire 7 (codes "b") 1500 (try_acquire 7 (codes "a") 1000 (Ai.new 2 8 60)).0).1
        ≡ duplicate
      ⊎ (try_acquire 7 (codes "b") 1500 (try_acquire 7 (codes "a") 1000 (Ai.new 2 8 60)).0).1
        ≡ busy)
    × (Ai.contains 7 (release 7 (try_acquire 7 (codes "a") 1000 (Ai.new 2 8 60)).0).in_flight_users
        ≡ false)
unfolding Ai.new try_acquire Ai.admit Ai.forget_old Ai.drop_old Ai.contains find put
busy_until_release_run = busy_until_release 7 (codes "a") (codes "b") 1000 1500 (Ai.new 2 8 60) refl

replay_refused_example :
    (try_acquire 7
      (codes "a")
      61000
      (run (finish 7 ∷ []) (try_acquire 7 (codes "a") 1000 (Ai.new 2 8 60)).0)).1
    ≡ duplicate
unfolding Ai.new try_acquire Ai.admit Ai.forget_old Ai.drop_old Ai.contains find put seen_of
replay_refused_example =
    replay_refused 7 1000 61000 (codes "a") (finish 7 ∷ []) (Ai.new 2 8 60) tt refl tt (omega arith)

abbrev all_alive : ℕ → Bool
all_alive s = true

-- User 5 logs in from session 2 while session 1 is on line, and session 1 goes off after that.
login_survives_example :
    get all_alive 5 (
      Ownership.run
        (goes_off all_alive 5 1
          ∷ sends 5 130
          ∷ scans all_alive 5 137
          ∷ comes_online 8 4 138
          ∷ logs_in all_alive 6 3 140
          ∷ [])
        (replace all_alive 5 2 120 (online 5 1 100 [])).0)
    ≡ some 2
login_survives_example =
    login_survives all_alive all_alive 5 2 120
      (goes_off all_alive 5 1
        ∷ sends 5 130
        ∷ scans all_alive 5 137
        ∷ comes_online 8 4 138
        ∷ logs_in all_alive 6 3 140
        ∷ [])
      (online 5 1 100 []) refl ((λ e. omega arith), (omega arith, (omega arith, tt)))

abbrev two_users : Presence
two_users =
    (5, record { sess = 2; last_active = 100 }) ∷ (6, record { sess = 3; last_active = 0 }) ∷ []

scan_run : (scan_stale all_alive 90 200 two_users).1 ≡ (5, 2) ∷ []
unfolding scan_stale
scan_run = refl

scan_stale_exact_run :
    let r = scan_stale all_alive 90 200 two_users in
    (find 5 r.1 ≡ some 2) × (find 5 r.0 ≡ some (record { sess = 2; last_active = 100 }))
unfolding find
scan_stale_exact_run = scan_stale_exact all_alive 90 200 5 two_users (refl, (refl, tt))

-- The state is the list of the requests that were handled and of the sessions that were closed.
abbrev logs : ℕ → Handler (List ℕ)
logs n session payload w = (n ∷ w, n == 2)

abbrev handlers : Handlers (List ℕ)
handlers = record {
  on_register = logs 1;
  on_login = logs 2;
  on_token_login = logs 3;
  on_token_refresh = logs 4;
  on_logout = logs 5;
  on_reply = logs 6;
  on_cancel = logs 7;
  on_chat = logs 8;
  on_add_friend = logs 9;
  on_add_friend_reply = logs 10;
  on_friend_request_list = logs 11;
  on_delete_friend = logs 12;
  on_conversations = logs 13;
  on_messages = logs 14;
  on_offline = logs 15;
  on_heartbeat = logs 16;
}

abbrev closes : ℕ → List ℕ → List ℕ
closes s w = (100 + s) ∷ w

-- The login handler throws here, and the session 7 is closed.
handle_lem_run :
    ((dispatcher handlers).1 ≡ none)
    × ((handle closes (some 7) 1002 [] (dispatcher handlers).0 [] ≡ 107 ∷ 2 ∷ [])
        × (has_handler 1002 (dispatcher handlers).0 ≡ true))
unfolding find route_list
handle_lem_run = handle_lem closes handlers (some 7) 1002 [] []
