-- ===== src/Storage/Suggestions/Tests.antt =====
-- Runs on the table of AI suggestions.
use jitong_app.Base.{◌≡◌, refl, true, none, some, [], ◌∷◌, Bytes, codes, bytes_eq, arith}
use jitong_app.Base.Dict.{find}
use jitong_app.Account.TokenManager.Decimal.{to_string, digits_of}
use jitong_app.Services.Suggestions.{
  AiStatus, Suggestion, AiRequestContext, new, request_id_of, request_ai_reply, on_ai_result,
}
use jitong_app.Storage.Suggestions.{
  key_Eq, Table, row_of, join_from, split_from, split_suggestions, join_suggestions,
  upsert_ai_suggestion, load_ai_suggestions,
}
use jitong_app.Storage.Suggestions.Loading.{answer_in, load_ai_suggestions-upsert_ai_suggestion}
use jitong_app.Storage.Suggestions.Restart.{store_all, texts, answer_in_other_conversation}

abbrev first : Bytes
first = codes "ai-0"

abbrev answer : Suggestion
answer = record {
  request_id = first;
  conversation_id = 4;
  peer_id = 9;
  tone = codes "kind";
  status = AiStatus.success;
  suggestions = codes "hello" ∷ codes "good day" ∷ [];
  error_code = 0;
  generated_at = 400;
  context_version = codes "v1";
}

-- An empty text in front is lost.
leading_empty_run : split_suggestions (join_suggestions ([] ∷ codes "a" ∷ [])) ≡ codes "a" ∷ []
unfolding join_from split_from
leading_empty_run = refl

abbrev stored : Table
stored = ((7, first), row_of answer) ∷ []

load_ai_suggestions-upsert_ai_suggestion_example :
    (answer_in first (load_ai_suggestions true 7 4 (upsert_ai_suggestion true true 7 answer []).0)
      ≡ some answer)
    × (answer_in
          (codes "ai-1")
          (load_ai_suggestions true 7 5 (upsert_ai_suggestion true true 7 answer []).0)
        ≡ answer_in (codes "ai-1") (load_ai_suggestions true 7 5 []))
unfolding find bytes_eq
load_ai_suggestions-upsert_ai_suggestion_example =
    load_ai_suggestions-upsert_ai_suggestion true 7 5 (codes "ai-1") answer [] tt refl refl refl
      (refl, ((refl, (refl, (refl, (refl, (refl, tt))))), (ground arith, tt))) refl

-- The next process asks for conversation 5.
abbrev next : AiRequestContext
next = record { conversation_id = 5; peer_id = 2; tone = codes "dry"; context_version = codes "v9" }

abbrev after_restart : Table
after_restart =
    store_all 7
      (on_ai_result (request_id_of 0) AiStatus.success (codes "bye" ∷ []) 0 900
        (request_ai_reply next 800 (new true)).0).1
      stored

answer_in_other_conversation_example :
    (answer_in (request_id_of 0) (load_ai_suggestions true 7 5 after_restart) ≡ none)
    × (texts (answer_in (request_id_of 0) (load_ai_suggestions true 7 4 after_restart))
        ≡ some (codes "bye" ∷ []))
unfolding find bytes_eq request_id_of to_string digits_of
answer_in_other_conversation_example =
    answer_in_other_conversation next 800 900 7 AiStatus.success (codes "bye" ∷ []) 0
      (row_of answer) stored (refl, tt) refl refl refl refl (refl, ((refl, (refl, (refl, tt))), tt))
