-- ===== src/Services/Suggestions/Late.antt =====
-- AiSuggestionService: a request that is over stays silent.
use jitong_app.Base.{
  ℕ, ◌+◌, ◌^◌, ◌<◌, ◌≡◌, refl, Bool, false, none, some, List, [], ◌∷◌, Bytes, bytes_eq,
  bytes_eq_iff, All, All-append, arith, Option-cases, inl, inr, length,
}
use jitong_app.Base.Dict.{find, find-erase, find-put, HasUniqueKeys, bytes_Eq, nat_eq}
use jitong_app.Services.Suggestions.{
  AiStatus, Suggestion, AiRequestContext, InFlight, Service, new, request_id_of, flight_of, begin,
  request_ai_reply, settle, cancel_ai_reply, on_ai_result, invalidate, expire, tick,
}
use jitong_app.Services.Suggestions.Links.{
  Linked, Found, Found-erase, Found-self, settle-Linked, request_id_of_injective,
}
use jitong_app.Services.Suggestions.Runs.{
  Call, requests, cancels, results, invalidates, ticks, after, run, after-Linked, seq-after,
  seq-run, run-Linked,
}

-- Nothing of the request is written.
abbrev pub Silent : Bytes → List Suggestion → Type 0
Silent id written = All (λ (d : Suggestion). bytes_eq d.request_id id ≡ false) written

other :
    (id j : Bytes) (f : InFlight) (s : Service)
    → find id s.in_flight ≡ none
    → find j s.in_flight ≡ some f
    → Linked s
    → bytes_eq f.request_id id ≡ false
other id j f s n e l = ground (arith, n, e, l.id_of j f e, bytes_eq_iff f.request_id id)

settled :
    (id j : Bytes) (f : InFlight) (s : Service)
    → find id s.in_flight ≡ none
    → find id (settle j f s).in_flight ≡ none
settled id j f s n = ground (arith, n, find-erase j id s.in_flight)

begin_other :
    (k : ℕ) (x : AiRequestContext) (now : ℕ) (s : Service)
    → k < s.seq
    → s.seq + 1 < 2 ^ 64
    → find (request_id_of k) s.in_flight ≡ none
    → find (request_id_of k) (begin x now s).0.in_flight ≡ none
begin_other k x now s h small n = ground (
  arith,
  h,
  n,
  find-put (request_id_of s.seq) (request_id_of k) (flight_of x now s) s.in_flight,
  bytes_eq_iff (request_id_of k) (request_id_of s.seq),
  request_id_of_injective k s.seq (omega (arith, h, small)) (omega (arith, small)),
)

find-request_ai_reply :
    (k : ℕ) (x : AiRequestContext) (now : ℕ) (s : Service)
    → k < s.seq
    → s.seq + 1 < 2 ^ 64
    → find (request_id_of k) s.in_flight ≡ none
    → find (request_id_of k) (request_ai_reply x now s).0.in_flight ≡ none
unfolding request_ai_reply
find-request_ai_reply k x now s h small n = ground (arith, n, begin_other k x now s h small n)

cancel_ai_reply-Silent :
    (id j : Bytes) (now : ℕ) (s : Service)
    → find id s.in_flight ≡ none
    → Linked s
    → (find id (cancel_ai_reply j now s).0.in_flight ≡ none) × Silent id (cancel_ai_reply j now s).1
unfolding cancel_ai_reply
cancel_ai_reply-Silent id j now s n l = elim (Option-cases (find j s.in_flight)) [
  | inl e ↦ rw e (ground (arith, n))
  | inr (f, e) ↦ rw e (ground (arith, n, other id j f s n e l, settled id j f s n))
]

on_ai_result-Silent :
    (id j : Bytes) (status : AiStatus) (suggestions : List Bytes) (error_code now : ℕ) (s : Service)
    → find id s.in_flight ≡ none
    → Linked s
    → let r = on_ai_result j status suggestions error_code now s in
      (find id r.0.in_flight ≡ none) × Silent id r.1
unfolding on_ai_result
on_ai_result-Silent id j status suggestions error_code now s n l =
    elim (Option-cases (find j s.in_flight)) [
      | inl e ↦ rw e (ground (arith, n))
      | inr (f, e) ↦ rw e (ground (arith, n, other id j f s n e l, settled id j f s n))
    ]

expire-Silent :
    (id : Bytes) (now : ℕ) (entries : List (Bytes × InFlight)) (s : Service)
    → find id s.in_flight ≡ none
    → HasUniqueKeys entries
    → Found s.in_flight entries
    → Linked s
    → (find id (expire now entries s).0.in_flight ≡ none) × Silent id (expire now entries s).1
unfolding expire
expire-Silent id now [] s n u h l = (n, tt)
expire-Silent id now ((j, f) ∷ rest) s n u h l = ground (
  arith,
  other id j f s n h.0 l,
  expire-Silent id now rest (settle j f s) (settled id j f s n) u.1
      (Found-erase j s.in_flight rest u.0 h.1) (settle-Linked j f s h.0 l),
  expire-Silent id now rest s n u.1 h.1 l,
)

tick-Silent :
    (id : Bytes) (now : ℕ) (s : Service)
    → find id s.in_flight ≡ none
    → Linked s
    → (find id (tick now s).0.in_flight ≡ none) × Silent id (tick now s).1
unfolding tick
tick-Silent id now s n l =
    ground
      (arith, n, expire-Silent id now s.in_flight s n l.unique (Found-self s.in_flight l.unique) l)

after-Silent :
    (k : ℕ) (c : Call) (s : Service)
    → k < s.seq
    → s.seq + 1 < 2 ^ 64
    → find (request_id_of k) s.in_flight ≡ none
    → Linked s
    → (find (request_id_of k) (after c s).0.in_flight ≡ none)
      × Silent (request_id_of k) (after c s).1
unfolding after invalidate find
after-Silent k (requests x now) s h small n l = (find-request_ai_reply k x now s h small n, tt)
after-Silent k (cancels j now) s h small n l = cancel_ai_reply-Silent (request_id_of k) j now s n l
after-Silent k (results j status suggestions error_code now) s h small n l =
    on_ai_result-Silent (request_id_of k) j status suggestions error_code now s n l
after-Silent k invalidates s h small n l = (refl, tt)
after-Silent k (ticks now) s h small n l = tick-Silent (request_id_of k) now s n l

run_from-Silent :
    (k : ℕ) (calls : List Call) (s : Service)
    → k < s.seq
    → s.seq + length calls < 2 ^ 64
    → find (request_id_of k) s.in_flight ≡ none
    → Linked s
    → Silent (request_id_of k) (run calls s).1
unfolding run
run_from-Silent k [] s h small n l = tt
run_from-Silent k (c ∷ calls) s h small n l =
    let one : s.seq + 1 < 2 ^ 64 = omega (arith, small) in
    let a = after-Silent k c s h one n l in
    let b = seq-after c s one in
    All-append (λ (d : Suggestion). bytes_eq d.request_id (request_id_of k) ≡ false) (after c s).1 _
      a.1
      (run_from-Silent k calls (after c s).0 (omega (arith, h, b)) (omega (arith, small, b)) a.0
        (after-Linked c s one l))

-- A request id that the service has given, and that is no longer in flight after some calls on a new
-- service, because the request was cancelled, answered, timed out or made invalid, stays silent:
-- whatever calls come then, an answer that is late included, nothing is stored under that id. All
-- calls together are fewer than 2 ^ 64.
pub run-Silent :
    (ready : Bool) (before later : List Call) (k : ℕ)
    → let s = (run before (new ready)).0 in
      length before + length later < 2 ^ 64
      → k < s.seq
      → find (request_id_of k) s.in_flight ≡ none
      → Silent (request_id_of k) (run later s).1
run-Silent ready before later k small h n =
    let short : length before < 2 ^ 64 = omega (arith, small) in
    let given = seq-run ready before short in
    run_from-Silent k later (run before (new ready)).0 h (omega (arith, small, given)) n
      (run-Linked ready before short)
