-- ===== src/Services/Suggestions/Runs.antt =====
-- AiSuggestionService over sequences of calls.
use jitong_app.Base.{
  ℕ, ◌+◌, ◌^◌, ◌<◌, ◌≤◌, ◌≡◌, refl, Bool, true, false, not, List, [], ◌∷◌, ◌++◌, Bytes, ◌==◌,
  if◌then◌else◌, arith, Option-cases, inl, inr, length,
}
use jitong_app.Base.Dict.{find, bytes_Eq, nat_eq}
use jitong_app.Services.Suggestions.{
  AiStatus, Suggestion, RequestResult, AiRequestContext, InFlight, Service, new, join_or_begin,
  request_ai_reply, settle, cancel_ai_reply, on_ai_result, invalidate, expire, tick,
}
use jitong_app.Services.Suggestions.Links.{
  Linked, settle-Linked, begin-Linked, expire-Linked, Found-self,
}

pub data Call : Type 0 where
  requests : AiRequestContext → ℕ → Call
  cancels : Bytes → ℕ → Call
  results : Bytes → AiStatus → List Bytes → ℕ → ℕ → Call
  invalidates : Call
  ticks : ℕ → Call

unfoldable pub after : Call → Service → Service × List Suggestion
after (requests x now) s = ((request_ai_reply x now s).0, [])
after (cancels id now) s = ((cancel_ai_reply id now s).0, (cancel_ai_reply id now s).1)
after (results id status suggestions error_code now) s =
    on_ai_result id status suggestions error_code now s
after invalidates s = (invalidate s, [])
after (ticks now) s = tick now s

unfoldable pub run : List Call → Service → Service × List Suggestion
run [] s = (s, [])
run (c ∷ calls) s = let r = after c s in let next = run calls r.0 in (next.0, r.1 ++ next.1)

new-Linked : (ready : Bool) → Linked (new ready)
unfolding find
new-Linked ready = record {
  unique = tt;
  id_of = λ id f e. cc;
  current = λ id f e. cc;
  forward = λ id f e. cc;
  back = λ c id e. cc;
  ahead = λ k a b. refl;
}

invalidate-Linked : (s : Service) → Linked (invalidate s)
unfolding invalidate find
invalidate-Linked s = record {
  unique = tt;
  id_of = λ id f e. cc;
  current = λ id f e. cc;
  forward = λ id f e. cc;
  back = λ c id e. cc;
  ahead = λ k a b. refl;
}

join_or_begin-Linked :
    (x : AiRequestContext) (now : ℕ) (s : Service)
    → s.seq + 1 < 2 ^ 64
    → Linked s
    → Linked (join_or_begin x now s (find x.conversation_id s.by_conv)).0
join_or_begin-Linked x now s small l = elim (Option-cases (find x.conversation_id s.by_conv)) [
  | inl e ↦ rw e (begin-Linked x now s small e l)
  | inr (id, e) ↦ rw e l
]

Linked-if :
    {X : Type 0} (service : X → Service) (b : Bool) (x y : X)
    → Linked (service x)
    → Linked (service y)
    → Linked (service (if b then x else y))
Linked-if service true x y l m = l
Linked-if service false x y l m = m

request-Linked :
    (x : AiRequestContext) (now : ℕ) (s : Service)
    → s.seq + 1 < 2 ^ 64
    → Linked s
    → Linked (request_ai_reply x now s).0
unfolding request_ai_reply
request-Linked x now s small l =
    Linked-if (λ (r : Service × RequestResult). r.0) (not s.ready) _ _ l
      (Linked-if (λ (r : Service × RequestResult). r.0) (x.conversation_id == 0) _ _ l
        (join_or_begin-Linked x now s small l))

cancel-Linked :
    (id : Bytes) (now : ℕ) (s : Service) → Linked s → Linked (cancel_ai_reply id now s).0
unfolding cancel_ai_reply
cancel-Linked id now s l =
    Linked-if (λ (r : Service × List Suggestion × Bool). r.0) (not s.ready) _ _ l
      (elim (Option-cases (find id s.in_flight)) [
        | inl e ↦ rw e l
        | inr (f, e) ↦ rw e (settle-Linked id f s e l)
      ])

result-Linked :
    (id : Bytes) (status : AiStatus) (suggestions : List Bytes) (error_code now : ℕ) (s : Service)
    → Linked s
    → Linked (on_ai_result id status suggestions error_code now s).0
unfolding on_ai_result
result-Linked id status suggestions error_code now s l =
    Linked-if (λ (r : Service × List Suggestion). r.0) (not s.ready) _ _ l
      (elim (Option-cases (find id s.in_flight)) [
        | inl e ↦ rw e l
        | inr (f, e) ↦
            let gone = settle-Linked id f s e l in
            rw e (
              Linked-if (λ (r : Service × List Suggestion). r.0)
                (not (f.generation == s.generation)) _ _ gone gone)
      ])

tick-Linked : (now : ℕ) (s : Service) → Linked s → Linked (tick now s).0
unfolding tick
tick-Linked now s l =
    Linked-if (λ (r : Service × List Suggestion). r.0) (not s.ready) _ _ l
      (expire-Linked now s.in_flight s l.unique (Found-self s.in_flight l.unique) l)

pub after-Linked : (c : Call) (s : Service) → s.seq + 1 < 2 ^ 64 → Linked s → Linked (after c s).0
unfolding after
after-Linked (requests x now) s small l = request-Linked x now s small l
after-Linked (cancels id now) s small l = cancel-Linked id now s l
after-Linked (results id status suggestions error_code now) s small l =
    result-Linked id status suggestions error_code now s l
after-Linked invalidates s small l = invalidate-Linked s
after-Linked (ticks now) s small l = tick-Linked now s l

seq-expire :
    (now : ℕ) (entries : List (Bytes × InFlight)) (s : Service)
    → (expire now entries s).0.seq ≡ s.seq
unfolding expire
seq-expire now [] s = refl
seq-expire now ((id, f) ∷ rest) s =
    ground (arith, seq-expire now rest s, seq-expire now rest (settle id f s))

-- A call takes at most one request id.
pub seq-after :
    (c : Call) (s : Service)
    → s.seq + 1 < 2 ^ 64
    → (s.seq ≤ (after c s).0.seq) × ((after c s).0.seq ≤ s.seq + 1)
unfolding after request_ai_reply cancel_ai_reply on_ai_result invalidate tick
seq-after (requests x now) s small = ground (arith, small)
seq-after (cancels id now) s small = ground arith
seq-after (results id status suggestions error_code now) s small = ground arith
seq-after invalidates s small = ground arith
seq-after (ticks now) s small = ground (arith, seq-expire now s.in_flight s)

run_keeps :
    (calls : List Call) (s : Service)
    → s.seq + length calls < 2 ^ 64
    → Linked s
    → Linked (run calls s).0 × ((run calls s).0.seq ≤ s.seq + length calls)
unfolding run
run_keeps [] s small l = (l, omega arith)
run_keeps (c ∷ calls) s small l =
    let b = seq-after c s (omega (arith, small)) in
    let next =
      run_keeps calls (after c s).0 (omega (arith, small, b))
        (after-Linked c s (omega (arith, small)) l) in
    (next.0, omega (arith, next.1, b))

pub seq-run :
    (ready : Bool) (calls : List Call)
    → length calls < 2 ^ 64
    → (run calls (new ready)).0.seq ≤ length calls
seq-run ready calls small =
    omega (arith, (run_keeps calls (new ready) (omega (arith, small)) (new-Linked ready)).1)

-- After any calls on a new service, fewer than 2 ^ 64, the two maps belong together: each request in
-- flight stands under its own id, was made in the current generation and is the one that its
-- conversation names; the request that a conversation names is in flight for that conversation; and
-- no id that the counter has yet to give is in flight.
pub run-Linked :
    (ready : Bool) (calls : List Call) → length calls < 2 ^ 64 → Linked (run calls (new ready)).0
run-Linked ready calls small =
    (run_keeps calls (new ready) (omega (arith, small)) (new-Linked ready)).0
