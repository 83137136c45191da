-- ===== src/Services/Tests.antt =====
-- Runs of the services: a request that is joined, cancelled and answered late, and one that times out.
use jitong_app.Base.{◌≡◌, refl, true, List, [], ◌∷◌, ◌++◌, Bytes, codes, bytes_eq, arith}
use jitong_app.Base.Dict.{find, put, erase, bytes_Eq, nat_eq}
use jitong_app.Account.TokenManager.Decimal.{to_string, digits_of}
use jitong_app.Services.Suggestions.{
  AiStatus, AiRequestContext, new, request_id_of, request_ai_reply, cancel_ai_reply, expire, tick,
}
use jitong_app.Services.Suggestions.Links.{Linked}
use jitong_app.Services.Suggestions.Runs.{
  Call, requests, cancels, results, ticks, after, run, run-Linked,
}
use jitong_app.Services.Suggestions.Late.{Silent, run-Silent}

abbrev context : AiRequestContext
context = record {
  conversation_id = 4;
  peer_id = 9;
  tone = codes "kind";
  context_version = codes "v1";
}

abbrev first : Bytes
first = codes "ai-0"

abbrev asks_twice : List Call
asks_twice = requests context 100 ∷ requests context 200 ∷ []

abbrev gives_up : List Call
gives_up = asks_twice ++ cancels first 300 ∷ []

abbrev too_late : List Call
too_late = results first AiStatus.success (codes "hello" ∷ []) 0 400 ∷ ticks 90000 ∷ []

joined_run :
    (request_ai_reply context 200 (run (requests context 100 ∷ []) (new true)).0).1
    ≡ record { ok = true; single_flighted = true; request_id = first; error = [] }
unfolding run after request_ai_reply find put request_id_of to_string digits_of
joined_run = refl

timeout_run :
    (run (requests context 100 ∷ ticks 20099 ∷ ticks 20100 ∷ []) (new true)).1
    ≡ record {
      request_id = first;
      conversation_id = 4;
      peer_id = 9;
      tone = codes "kind";
      status = AiStatus.error;
      suggestions = [];
      error_code = 1001;
      generated_at = 20100;
      context_version = codes "v1";
    }
      ∷ []
unfolding run after request_ai_reply tick expire find put erase request_id_of to_string digits_of
timeout_run = refl

run-Linked_example : Linked (run gives_up (new true)).0
run-Linked_example = run-Linked true gives_up (omega arith)

run-Silent_example : Silent (request_id_of 0) (run too_late (run gives_up (new true)).0).1
unfolding run after request_ai_reply cancel_ai_reply find put erase request_id_of to_string
    digits_of bytes_eq
run-Silent_example = run-Silent true gives_up too_late 0 (omega arith) (omega arith) refl
