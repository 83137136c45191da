-- ===== src/Storage/Suggestions/Restart.antt =====
-- Request ids start again with the process, the table does not.
use jitong_app.Base.{
  ℕ, ◌≡◌, refl, true, false, Option, none, some, List, [], ◌∷◌, Bytes, bytes_eq_refl, ==_iff,
  is_empty, ◌==◌, arith,
}
use jitong_app.Base.Dict.{find, put, HasUniqueKeys, bytes_Eq, nat_eq}
use jitong_app.Services.Suggestions.{
  AiStatus, Suggestion, AiRequestContext, new, request_id_of, flight_of, request_ai_reply,
  answer_of, on_ai_result,
}
use jitong_app.Storage.Suggestions.{Table, Row, key_Eq, upsert_ai_suggestion, load_ai_suggestions}
use jitong_app.Storage.Suggestions.Text.{IsSplittable, split_suggestions-join_suggestions}
use jitong_app.Storage.Suggestions.Loading.{
  answer_in, answer_in-load, upsert-HasUniqueKeys, find-upsert,
}

-- The writes of an operation of the service, each committed.
unfoldable pub store_all : ℕ → List Suggestion → Table → Table
store_all owner [] table = table
store_all owner (d ∷ written) table =
    store_all owner written (upsert_ai_suggestion true true owner d table).0

abbrev pub texts : Option Suggestion → Option (List Bytes)
texts none = none
texts (some d) = some d.suggestions

first_answer :
    (x : AiRequestContext) (now later : ℕ) (status : AiStatus) (suggestions : List Bytes)
    (error_code : ℕ)
    → (x.conversation_id == 0) ≡ false
    → (on_ai_result
        (request_id_of 0)
        status
        suggestions
        error_code
        later
        (request_ai_reply x now (new true)).0).1
      ≡ answer_of (flight_of x now (new true)) status suggestions error_code later ∷ []
unfolding request_ai_reply on_ai_result find put
first_answer x now later status suggestions error_code h =
    ground (arith, h, bytes_eq_refl (request_id_of 0))

first_id : is_empty (request_id_of 0) ≡ false
unfolding request_id_of
first_id = refl

-- After a restart, the first request, of one conversation, is answered and the answer committed.
-- The table has, from before, a row of this owner under the same request id, for another
-- conversation. Then a load of the conversation that asked does not have the answer, and a load of
-- the other conversation has its texts. Keys of the table are unique, the owner and the conversation
-- are positive, the first text is not empty, and none has the byte 0x1F.
pub answer_in_other_conversation :
    (x : AiRequestContext) (now later owner : ℕ) (status : AiStatus) (suggestions : List Bytes)
    (error_code : ℕ) (r : Row) (table : Table)
    → let id = request_id_of 0 in
      let asked = request_ai_reply x now (new true) in
      let written = (on_ai_result id status suggestions error_code later asked.0).1 in
      let stored = store_all owner written table in
      HasUniqueKeys table
      → (owner == 0) ≡ false
      → (x.conversation_id == 0) ≡ false
      → find (owner, id) table ≡ some r
      → (r.conversation_id == x.conversation_id) ≡ false
      → IsSplittable suggestions
      → (answer_in id (load_ai_suggestions true owner x.conversation_id stored) ≡ none)
        × (texts (answer_in id (load_ai_suggestions true owner r.conversation_id stored))
            ≡ some suggestions)
unfolding store_all
answer_in_other_conversation x now later owner status suggestions error_code r table u o p e n k =
    let id = request_id_of 0 in
    let d = answer_of (flight_of x now (new true)) status suggestions error_code later in
    let stored = (upsert_ai_suggestion true true owner d table).0 in
    let v = upsert-HasUniqueKeys true true owner d table u in
    let a = answer_in-load owner x.conversation_id id stored o v in
    let b = find-upsert true owner id d table o first_id in
    let c = answer_in-load owner r.conversation_id id stored o v in
    let text = split_suggestions-join_suggestions suggestions k in
    rw (first_answer x now later status suggestions error_code p) (
      ground (arith, a, b, e, n, bytes_eq_refl id),
      ground (arith, b, c, e, text, bytes_eq_refl id, ==_iff r.conversation_id r.conversation_id),
    )
