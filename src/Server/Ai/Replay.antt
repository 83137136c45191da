-- ===== src/Server/Ai/Replay.antt =====
-- AiRequestLimiter: a request id that was accepted is refused while the replay window lasts.
use jitong_app.Base.{
  ℕ, ◌+◌, ◌≤◌, ◌≡◌, refl, Bool, true, false, some, List, [], ◌∷◌, Bytes, bytes_eq_iff,
  bytes_eq_refl, leb, ◌==◌, if◌then◌else◌, arith,
}
use jitong_app.Base.Dict.{
  find, put, find-put, find-keep, HasUniqueKeys, put-HasUniqueKeys, keep-HasUniqueKeys, bytes_Eq,
  nat_eq,
}
use jitong_app.Server.Ai.{
  Outcome, accepted, busy, rate_limited, duplicate, queue_full, Seen, Limiter, new, or_empty,
  is_seen, forget_old, admit, try_acquire, release,
}
use jitong_app.Server.Ai.Runs.{
  Event, acquire, finish, step, run, step-SameSettings, run-SameSettings,
}

unfoldable pub seen_of : ℕ → Limiter → Seen
seen_of user l = or_empty (find user l.seen_ids)

-- Every call of the run comes at `until` or before.
abbrev pub IsBefore : ℕ → List Event → Type 0
IsBefore until [] = Unit
IsBefore until (acquire u request_id now ∷ es) = (now ≤ until) × IsBefore until es
IsBefore until (finish u ∷ es) = IsBefore until es

-- The id is remembered from the time `t`.
record IsKnown (id : Bytes) (t : ℕ) (seen : Seen) : Type 0 where
  keys : HasUniqueKeys seen
  known : find id seen ≡ some t

forget_old-IsKnown :
    (window now t : ℕ) (id : Bytes) (seen : Seen)
    → IsKnown id t seen
    → now ≤ t + window
    → IsKnown id t (forget_old window now seen)
unfolding forget_old
forget_old-IsKnown window now t id seen k h =
    let p : Bytes × ℕ → Bool = λ x. leb now (x.1 + window) in
    record {
      keys = keep-HasUniqueKeys p seen k.keys;
      known = rw (find-keep p id seen k.keys, k.known) (ground arith);
    }

put-IsKnown :
    (id i : Bytes) (t now : ℕ) (seen : Seen)
    → is_seen (find i seen) ≡ false
    → IsKnown id t seen
    → IsKnown id t (put i now seen)
put-IsKnown id i t now seen h k = record {
  keys = put-HasUniqueKeys i now seen k.keys;
  known = ground (arith, k.known, find-put i id now seen, bytes_eq_iff id i);
}

-- What the user has seen after a call: the ids that were left, or those and the new one.
seen_of-try_acquire :
    (user u : ℕ) (id : Bytes) (now : ℕ) (l : Limiter)
    → let left = forget_old l.replay_window now (seen_of u l) in
      seen_of user (try_acquire u id now l).0 ≡ (
        if user == u
        then (if is_seen (find id left)
            then left
            else (elim (try_acquire u id now l).1 [ accepted ↦ put id now left | _ ↦ left ]))
        else seen_of user l)
unfolding seen_of try_acquire admit
seen_of-try_acquire user u id now l =
    let left = forget_old l.replay_window now (or_empty (find u l.seen_ids)) in
    ground (
      arith,
      find-put u user left l.seen_ids,
      find-put u user (put id now left) (put u left l.seen_ids),
    )

chosen :
    (P : Seen → Type 0) (mine met : Bool) (o : Outcome) (left new other : Seen)
    → (mine ≡ true → P left)
    → (mine ≡ true → met ≡ false → P new)
    → P other
    → P (if mine then (if met then left else (elim o [ accepted ↦ new | _ ↦ left ])) else other)
chosen P false met o left new other a b c = c
chosen P true true o left new other a b c = a refl
chosen P true false accepted left new other a b c = b refl refl
chosen P true false busy left new other a b c = a refl
chosen P true false rate_limited left new other a b c = a refl
chosen P true false duplicate left new other a b c = a refl
chosen P true false queue_full left new other a b c = a refl

try_acquire-IsKnown :
    (user u t : ℕ) (id i : Bytes) (now : ℕ) (l : Limiter)
    → IsKnown id t (seen_of user l)
    → now ≤ t + l.replay_window
    → IsKnown id t (seen_of user (try_acquire u i now l).0)
try_acquire-IsKnown user u t id i now l k h =
    let left = forget_old l.replay_window now (seen_of u l) in
    let kept : (user == u) ≡ true → IsKnown id t left = λ e.
      let same : user ≡ u = ground arith in
      forget_old-IsKnown l.replay_window now t id (seen_of u l) (rw (← same) k) h in
    rw (seen_of-try_acquire user u i now l) (
      chosen (IsKnown id t) (user == u) (is_seen (find i left)) (try_acquire u i now l).1 left
        (put i now left) (seen_of user l) kept (λ e n. put-IsKnown id i t now left n (kept e)) k)

step-IsKnown :
    (user t : ℕ) (id : Bytes) (e : Event) (es : List Event) (l : Limiter)
    → IsKnown id t (seen_of user l)
    → IsBefore (t + l.replay_window) (e ∷ es)
    → IsKnown id t (seen_of user (step e l)) × IsBefore (t + (step e l).replay_window) es
unfolding step
step-IsKnown user t id (acquire u i now) es l k b =
    let same : (try_acquire u i now l).0.replay_window ≡ l.replay_window =
      (step-SameSettings (acquire u i now) l).replay_window in
    (try_acquire-IsKnown user u t id i now l k b.0, rw same b.1)
step-IsKnown user t id (finish u) es l k b = (unfold seen_of release in k, unfold release in b)

run-IsKnown :
    (user t : ℕ) (id : Bytes) (es : List Event) (l : Limiter)
    → IsKnown id t (seen_of user l)
    → IsBefore (t + l.replay_window) es
    → IsKnown id t (seen_of user (run es l))
unfolding run
run-IsKnown user t id [] l k b = k
run-IsKnown user t id (e ∷ es) l k b =
    let s = step-IsKnown user t id e es l k b in run-IsKnown user t id es (step e l) s.0 s.1

try_acquire-duplicate :
    (user t now : ℕ) (id : Bytes) (l : Limiter)
    → IsKnown id t (seen_of user l)
    → now ≤ t + l.replay_window
    → (try_acquire user id now l).1 ≡ duplicate
unfolding try_acquire seen_of
try_acquire-duplicate user t now id l k h =
    ground (arith, (forget_old-IsKnown l.replay_window now t id (seen_of user l) k h).known)

seen_of-accepted :
    (user t : ℕ) (id : Bytes) (l : Limiter)
    → (try_acquire user id t l).1 ≡ accepted
    → seen_of user (try_acquire user id t l).0
      ≡ put id t (forget_old l.replay_window t (seen_of user l))
unfolding seen_of try_acquire admit
seen_of-accepted user t id l h =
    let left = forget_old l.replay_window t (or_empty (find user l.seen_ids)) in
    ground (
      arith,
      find-put user user left l.seen_ids,
      find-put user user (put id t left) (put user left l.seen_ids),
    )

accepted-IsKnown :
    (user t : ℕ) (id : Bytes) (l : Limiter)
    → HasUniqueKeys (seen_of user l)
    → (try_acquire user id t l).1 ≡ accepted
    → IsKnown id t (seen_of user (try_acquire user id t l).0)
unfolding forget_old
accepted-IsKnown user t id l u h =
    let left = forget_old l.replay_window t (seen_of user l) in
    let uniq =
      keep-HasUniqueKeys (λ (x : Bytes × ℕ). leb t (x.1 + l.replay_window)) (seen_of user l) u in
    rw (seen_of-accepted user t id l h) (record {
      keys = put-HasUniqueKeys id t left uniq;
      known = ground (arith, find-put id id t left, bytes_eq_refl id);
    })

-- Once a request id of a user was accepted at the time `t`, the same id of the same user is refused
-- as a duplicate at any time up to `t` plus the replay window, whatever calls come in between, none
-- of them later than that bound. No id stands twice among those that the user has used.
pub replay_refused :
    (user t now : ℕ) (id : Bytes) (es : List Event) (l : Limiter)
    → HasUniqueKeys (seen_of user l)
    → (try_acquire user id t l).1 ≡ accepted
    → IsBefore (t + l.replay_window) es
    → now ≤ t + l.replay_window
    → (try_acquire user id now (run es (try_acquire user id t l).0)).1 ≡ duplicate
replay_refused user t now id es l u h b n =
    let l1 = (try_acquire user id t l).0 in
    let same : l1.replay_window ≡ l.replay_window =
      unfold step in (step-SameSettings (acquire user id t) l).replay_window in
    let same' = (run-SameSettings es l1).replay_window in
    let k = run-IsKnown user t id es l1 (accepted-IsKnown user t id l u h) (rw same b) in
    try_acquire-duplicate user t now id (run es l1) k (rw (same', same) n)
