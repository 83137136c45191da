-- ===== src/Server/Ai/Rate.antt =====
-- AiRequestLimiter: how many requests of a user are accepted in a minute.
use mathlib.Core.List.{append_assoc, append-nil}
use jitong_app.Base.{
  ℕ, ◌+◌, ◌≤◌, ◌≡◌, refl, sym, ap, ◌∙◌, max, Bool, true, false, ◌&&◌, List, [], ◌∷◌, ◌++◌, Bytes,
  leb, ◌==◌, if◌then◌else◌, length, length-append, count_of, arith, Bool-cases, inl, inr,
}
use jitong_app.Base.Dict.{find, put, find-put, bytes_Eq, nat_eq}
use jitong_app.Server.Ai.{
  Outcome, accepted, busy, rate_limited, duplicate, queue_full, Seen, Limiter, new, minute,
  or_empty, drop_old, forget_old, admit, try_acquire, release,
}
use jitong_app.Server.Ai.Runs.{Event, acquire, finish, step, step-SameSettings}

abbrev pub is_accepted : Outcome → Bool
is_accepted accepted = true
is_accepted busy = false
is_accepted rate_limited = false
is_accepted duplicate = false
is_accepted queue_full = false

-- When the run accepted a request of the user.
unfoldable pub accepted_of : ℕ → List Event → Limiter → List ℕ
accepted_of user [] l = []
accepted_of user (acquire u request_id now ∷ es) l =
    let r = try_acquire u request_id now l in
    let rest = accepted_of user es r.0 in if user == u && is_accepted r.1 then now ∷ rest else rest
accepted_of user (finish u ∷ es) l = accepted_of user es (release u l)

-- The clock does not go back, from `from` to `until`.
abbrev pub IsClocked : ℕ → List Event → ℕ → Type 0
IsClocked from [] until = from ≤ until
IsClocked from (acquire u request_id now ∷ es) until = (from ≤ now) × IsClocked now es until
IsClocked from (finish u ∷ es) until = IsClocked from es until

recent_of : ℕ → Limiter → List ℕ
recent_of user l = or_empty (find user l.recent_requests)

drop_old_twice :
    (now later : ℕ) (ts : List ℕ)
    → now ≤ later
    → drop_old later (drop_old now ts) ≡ drop_old later ts
unfolding drop_old
drop_old_twice now later [] h = refl
drop_old_twice now later (t ∷ ts) h = ground (arith, drop_old_twice now later ts h)

drop_old-snoc :
    (now : ℕ) (ts : List ℕ) → drop_old now (ts ++ now ∷ []) ≡ drop_old now ts ++ now ∷ []
unfolding drop_old
drop_old-snoc now [] = ground arith
drop_old-snoc now (t ∷ ts) = ground (arith, drop_old-snoc now ts)

length-drop_old-le : (now : ℕ) (ts : List ℕ) → length (drop_old now ts) ≤ length ts
unfolding drop_old
length-drop_old-le now [] = omega arith
length-drop_old-le now (t ∷ ts) = ground (arith, length-drop_old-le now ts)

count_of-le : (p : ℕ → Bool) (ts : List ℕ) → count_of p ts ≤ length ts
count_of-le p [] = omega arith
count_of-le p (t ∷ ts) = ground (arith, count_of-le p ts)

count_of-drop_old :
    (now : ℕ) (ts : List ℕ)
    → count_of (λ (t : ℕ). leb now (t + minute)) ts ≤ length (drop_old now ts)
unfolding drop_old
count_of-drop_old now [] = omega arith
count_of-drop_old now (t ∷ ts) =
    ground (arith, count_of-drop_old now ts, count_of-le (λ (s : ℕ). leb now (s + minute)) ts)

-- What one call does to the times that count for the user.
record Kept (user u now : ℕ) (l : Limiter) (r : Limiter × Outcome) : Type 0 where
  when_accepted :
      (user == u && is_accepted r.1) ≡ true
      → (recent_of user r.0 ≡ drop_old now (recent_of user l) ++ now ∷ [])
        × (length (drop_old now (recent_of user l)) + 1 ≤ l.per_minute)
  otherwise :
      (user == u && is_accepted r.1) ≡ false
      → drop_old now (recent_of user r.0) ≡ drop_old now (recent_of user l)

admit-Kept :
    (user u : ℕ) (id : Bytes) (now : ℕ) (seen : Seen) (l : Limiter)
    → Kept user u now l (admit u id now seen l)
unfolding admit recent_of
admit-Kept user u id now seen l =
    let recent = drop_old now (or_empty (find u l.recent_requests)) in
    let e1 = find-put u user recent l.recent_requests in
    let e2 = find-put u user (recent ++ now ∷ []) l.recent_requests in
    let e3 = drop_old_twice now now (or_empty (find u l.recent_requests)) (omega arith) in
    record {
      when_accepted = λ h. ground (arith, e1, e2, e3);
      otherwise = λ h. ground (arith, e1, e2, e3);
    }

try_acquire-Kept :
    (user u : ℕ) (id : Bytes) (now : ℕ) (l : Limiter) → Kept user u now l (try_acquire u id now l)
unfolding try_acquire recent_of
try_acquire-Kept user u id now l =
    let seen = forget_old l.replay_window now (or_empty (find u l.seen_ids)) in
    let k = admit-Kept user u id now seen (record l { seen_ids = put u seen l.seen_ids }) in
    record {
      when_accepted = λ h. ground (arith, k.when_accepted);
      otherwise = λ h. ground (arith, k.otherwise);
    }

rate_held :
    (user from until : ℕ) (past : List ℕ) (es : List Event) (l : Limiter)
    → drop_old from (recent_of user l) ≡ drop_old from past
    → length (drop_old from past) ≤ l.per_minute
    → IsClocked from es until
    → length (drop_old until (past ++ accepted_of user es l)) ≤ l.per_minute
unfolding accepted_of release
rate_held user from until past [] l e b c = rw (append-nil past) (
    ground (arith, drop_old_twice from until past c, length-drop_old-le until (drop_old from past)))
rate_held user from until past (finish u ∷ es) l e b c =
    rate_held user from until past es (release u l) (unfold recent_of in e) b c
rate_held user from until past (acquire u id now ∷ es) l e b c =
    let r = try_acquire u id now l in
    let k = try_acquire-Kept user u id now l in
    let same : r.0.per_minute ≡ l.per_minute =
      unfold step in (step-SameSettings (acquire u id now) l).per_minute in
    let twice = drop_old_twice from now past c.0 in
    let e' : drop_old now (recent_of user l) ≡ drop_old now past =
      sym (drop_old_twice from now (recent_of user l) c.0) ∙ ap (drop_old now) e ∙ twice in
    let b' : length (drop_old now past) ≤ l.per_minute =
      ground (arith, twice, length-drop_old-le now (drop_old from past)) in
    elim (Bool-cases (user == u && is_accepted r.1)) [
      | inl h ↦
          let a = k.when_accepted h in
          let e'' : drop_old now (recent_of user r.0) ≡ drop_old now (past ++ now ∷ []) =
            ap (drop_old now) a.0
            ∙ drop_old-snoc now (drop_old now (recent_of user l))
            ∙ ap (λ (x : List ℕ). x ++ now ∷ [])
                (drop_old_twice now now (recent_of user l) (omega arith) ∙ e')
            ∙ sym (drop_old-snoc now past) in
          let b'' : length (drop_old now (past ++ now ∷ [])) ≤ r.0.per_minute = ground (
            arith,
            same,
            e',
            a.1,
            drop_old-snoc now past,
            length-append (drop_old now past) (now ∷ []),
          ) in
          let later = rate_held user now until (past ++ now ∷ []) es r.0 e'' b'' c.1 in
          rw (h, ← append_assoc past (now ∷ []) (accepted_of user es r.0))
            (ground (arith, same, later))
      | inr h ↦
          let later =
            rate_held user now until past es r.0 (k.otherwise h ∙ e') (ground (arith, same, b'))
              c.1 in
          rw h (ground (arith, same, later))
    ]

-- Take a new limiter and any sequence of calls at times that do not decrease. At any time from the
-- last call on, at most `per_minute` requests (and at most one where that is 0) of each user have
-- been accepted in the minute that ends then.
pub accepted_per_minute :
    (user per_minute max_pending window until : ℕ) (es : List Event)
    → IsClocked 0 es until
    → count_of
        (λ (t : ℕ). leb until (t + minute))
        (accepted_of user es (new per_minute max_pending window))
      ≤ max per_minute 1
unfolding new recent_of find drop_old
accepted_per_minute user per_minute max_pending window until es c =
    let l = new per_minute max_pending window in
    let held = rate_held user 0 until [] es l refl (omega arith) c in
    ground (arith, held, count_of-drop_old until (accepted_of user es l))
