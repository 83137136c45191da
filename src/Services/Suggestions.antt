-- ===== src/Services/Suggestions.antt =====
-- client_core/include/client_core/ai/AiSuggestionService.h and
-- client_core/src/ai/AiSuggestionService.cpp. An operation returns the service and the suggestions
-- that it hands to the repository, whose answer the code ignores. Identifiers and times are
-- natural numbers: a conversation id that is not positive is 0. `ready` is whether the pointers to
-- the repository and the clock are set.
pub mod Links
pub mod Runs
pub mod Late
use jitong_app.Base.{
  ℕ, ◌+◌, ◌%◌, ◌^◌, Bool, true, false, not, Option, none, some, List, [], ◌∷◌, ◌++◌, Bytes, codes,
  leb, ◌==◌, if◌then◌else◌,
}
use jitong_app.Base.Dict.{find, put, erase, nat_eq, bytes_Eq}
use jitong_app.Account.TokenManager.Decimal.{to_string}

pub data AiStatus : Type 0 where
  pending success error aborted : AiStatus

-- AiSuggestionDto
pub record Suggestion : Type 0 where
  pub request_id : Bytes
  pub conversation_id : ℕ
  pub peer_id : ℕ
  pub tone : Bytes
  pub status : AiStatus
  pub suggestions : List Bytes
  pub error_code : ℕ
  pub generated_at : ℕ
  pub context_version : Bytes

pub record AiRequestContext : Type 0 where
  pub conversation_id : ℕ
  pub peer_id : ℕ
  pub tone : Bytes
  pub context_version : Bytes

pub record RequestResult : Type 0 where
  pub ok : Bool
  pub single_flighted : Bool
  pub request_id : Bytes
  pub error : Bytes

pub record InFlight : Type 0 where
  pub request_id : Bytes
  pub conversation_id : ℕ
  pub peer_id : ℕ
  pub tone : Bytes
  pub context_version : Bytes
  pub generation : ℕ
  pub deadline_ms : ℕ

pub record Service : Type 0 where
  pub ready : Bool
  pub generation : ℕ
  pub seq : ℕ
  pub in_flight : List (Bytes × InFlight)
  pub by_conv : List (ℕ × Bytes)

abbrev pub new : Bool → Service
new ready = record { ready = ready; generation = 0; seq = 0; in_flight = []; by_conv = [] }

-- makeRequestId, before the counter goes on.
unfoldable pub request_id_of : ℕ → Bytes
request_id_of seq = codes "ai-" ++ to_string seq

abbrev pub refused : Bytes → RequestResult
refused message = record { ok = false; single_flighted = false; request_id = []; error = message }

abbrev pub flight_of : AiRequestContext → ℕ → Service → InFlight
flight_of x now s = record {
  request_id = request_id_of s.seq;
  conversation_id = x.conversation_id;
  peer_id = x.peer_id;
  tone = x.tone;
  context_version = x.context_version;
  generation = s.generation;
  deadline_ms = now + 20000;
}

abbrev pub begin : AiRequestContext → ℕ → Service → Service × RequestResult
begin x now s =
    let id = request_id_of s.seq in
    (
      record s {
        seq = (s.seq + 1) % 2 ^ 64;
        in_flight = put id (flight_of x now s) s.in_flight;
        by_conv = put x.conversation_id id s.by_conv;
      },
      record { ok = true; single_flighted = false; request_id = id; error = [] },
    )

abbrev pub join_or_begin : AiRequestContext → ℕ → Service → Option Bytes → Service × RequestResult
join_or_begin x now s (some id) =
    (s, record { ok = true; single_flighted = true; request_id = id; error = [] })
join_or_begin x now s none = begin x now s

unfoldable pub request_ai_reply : AiRequestContext → ℕ → Service → Service × RequestResult
request_ai_reply x now s =
    if not s.ready
    then (s, refused (codes "依赖为空"))
    else if x.conversation_id == 0
    then (s, refused (codes "conversationId 非法"))
    else join_or_begin x now s (find x.conversation_id s.by_conv)

-- The request leaves both maps.
abbrev pub settle : Bytes → InFlight → Service → Service
settle id f s = record s {
  in_flight = erase id s.in_flight;
  by_conv = erase f.conversation_id s.by_conv;
}

abbrev pub answer_of : InFlight → AiStatus → List Bytes → ℕ → ℕ → Suggestion
answer_of f status suggestions error_code now = record {
  request_id = f.request_id;
  conversation_id = f.conversation_id;
  peer_id = f.peer_id;
  tone = f.tone;
  status = status;
  suggestions = suggestions;
  error_code = error_code;
  generated_at = now;
  context_version = f.context_version;
}

abbrev pub cancel_found : Bytes → ℕ → Service → Option InFlight → Service × List Suggestion × Bool
cancel_found id now s none = (s, [], false)
cancel_found id now s (some f) = (settle id f s, answer_of f AiStatus.aborted [] 0 now ∷ [], true)

unfoldable pub cancel_ai_reply : Bytes → ℕ → Service → Service × List Suggestion × Bool
cancel_ai_reply id now s =
    if not s.ready then (s, [], false) else cancel_found id now s (find id s.in_flight)

abbrev pub result_found :
    Bytes → AiStatus → List Bytes → ℕ → ℕ → Service → Option InFlight → Service × List Suggestion
result_found id status suggestions error_code now s none = (s, [])
result_found id status suggestions error_code now s (some f) =
    if not (f.generation == s.generation)
    then (settle id f s, [])
    else (settle id f s, answer_of f status suggestions error_code now ∷ [])

unfoldable pub on_ai_result :
    Bytes → AiStatus → List Bytes → ℕ → ℕ → Service → Service × List Suggestion
on_ai_result id status suggestions error_code now s =
    if not s.ready
    then (s, [])
    else result_found id status suggestions error_code now s (find id s.in_flight)

unfoldable pub invalidate : Service → Service
invalidate s = record s { generation = s.generation + 1; in_flight = []; by_conv = [] }

-- The loop of tick over the requests in flight, and what it writes after the loop.
unfoldable pub expire : ℕ → List (Bytes × InFlight) → Service → Service × List Suggestion
expire now [] s = (s, [])
expire now ((id, f) ∷ rest) s =
    let next = expire now rest (settle id f s) in
    let other = expire now rest s in
    if leb f.deadline_ms now
    then (next.0, answer_of f AiStatus.error [] 1001 now ∷ next.1)
    else other

unfoldable pub tick : ℕ → Service → Service × List Suggestion
unfolding expire
tick now s = if not s.ready then (s, []) else expire now s.in_flight s
