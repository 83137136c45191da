-- ===== src/Storage/Suggestions/Loading.antt =====
-- NativeRepository.cpp: what loadAiSuggestions finds after upsertAiSuggestion.
use jitong_app.Base.{
  ℕ, ◌≡◌, refl, ap, ◌∙◌, Bool, true, false, Option, none, some, List, [], ◌∷◌, map, Bytes, bytes_eq,
  bytes_eq_iff, ==_iff, is_empty, ◌==◌, if◌then◌else◌, keep, All, arith, Option-cases, inl, inr,
}
use jitong_app.Base.Dict.{
  find, HasUniqueKeys, find-put, find-keep, keep-HasUniqueKeys, put-HasUniqueKeys,
}
use jitong_app.Services.Suggestions.{Suggestion}
use jitong_app.Storage.Suggestions.{
  Key, key_eq, key_eq_iff, key_Eq, Row, Table, merge, upsert_ai_suggestion, insert_row, order_rows,
  dto_of, selects, load_ai_suggestions,
}
use jitong_app.Storage.Suggestions.Text.{IsSplittable, split_suggestions-join_suggestions}

-- The suggestion that a request left in a list.
unfoldable pub find_suggestion : Bytes → List Suggestion → Option Suggestion
find_suggestion id [] = none
find_suggestion id (d ∷ list) =
    let rest = find_suggestion id list in if bytes_eq id d.request_id then some d else rest

find-insert_row :
    (k j : Key) (r : Row) (rows : Table)
    → find j rows ≡ none
    → find k (insert_row (j, r) rows) ≡ (if key_eq k j then some r else find k rows)
unfolding find insert_row
find-insert_row k j r [] h = refl
find-insert_row k j r ((i, q) ∷ rows) h =
    ground (arith, h, find-insert_row k j r rows, key_eq_iff k j, key_eq_iff k i, key_eq_iff j i)

find-order_rows :
    (k : Key) (rows : Table) → HasUniqueKeys rows → find k (order_rows rows) ≡ find k rows
unfolding find order_rows
find-order_rows k [] u = refl
find-order_rows k ((j, r) ∷ rows) u =
    find-insert_row k j r (order_rows rows) (find-order_rows j rows u.1 ∙ u.0)
    ∙ ap (λ (o : Option Row). if key_eq k j then some r else o) (find-order_rows k rows u.1)

abbrev Owned : ℕ → Table → Type 0
Owned owner rows = All (λ (e : Key × Row). (e.0.0 == owner) ≡ true) rows

insert_row-Owned :
    (owner : ℕ) (e : Key × Row) (rows : Table)
    → (e.0.0 == owner) ≡ true
    → Owned owner rows
    → Owned owner (insert_row e rows)
unfolding insert_row
insert_row-Owned owner e [] h k = (h, tt)
insert_row-Owned owner e (x ∷ rows) h k = ground (arith, h, k, insert_row-Owned owner e rows h k.1)

order_rows-Owned : (owner : ℕ) (rows : Table) → Owned owner rows → Owned owner (order_rows rows)
unfolding order_rows
order_rows-Owned owner [] h = tt
order_rows-Owned owner (e ∷ rows) h =
    insert_row-Owned owner e (order_rows rows) h.0 (order_rows-Owned owner rows h.1)

keep-Owned : (owner c : ℕ) (rows : Table) → Owned owner (keep (selects owner c) rows)
keep-Owned owner c [] = tt
keep-Owned owner c ((k, r) ∷ rows) = ground (arith, keep-Owned owner c rows)

abbrev pub dto_at : Key → Option Row → Option Suggestion
dto_at k none = none
dto_at k (some r) = some (dto_of (k, r))

find_suggestion-map :
    (owner : ℕ) (id : Bytes) (rows : Table)
    → Owned owner rows
    → find_suggestion id (map dto_of rows) ≡ dto_at (owner, id) (find (owner, id) rows)
unfolding find_suggestion find
find_suggestion-map owner id [] h = refl
find_suggestion-map owner id (((o, i), r) ∷ rows) h = ground (
  arith,
  h.0,
  find_suggestion-map owner id rows h.1,
  bytes_eq_iff id i,
  ==_iff o owner,
  ==_iff owner o,
)

-- What of a row a conversation's list shows.
abbrev pub shown : ℕ → Key → Option Row → Option Suggestion
shown c k none = none
shown c k (some r) = if r.conversation_id == c then some (dto_of (k, r)) else none

find_suggestion-load :
    (owner c : ℕ) (id : Bytes) (table : Table)
    → HasUniqueKeys table
    → find_suggestion id (map dto_of (order_rows (keep (selects owner c) table)))
      ≡ shown c (owner, id) (find (owner, id) table)
find_suggestion-load owner c id table u =
    let kept = keep (selects owner c) table in
    let a =
      find_suggestion-map owner id (order_rows kept)
        (order_rows-Owned owner kept (keep-Owned owner c table)) in
    let b = find-order_rows (owner, id) kept (keep-HasUniqueKeys (selects owner c) table u) in
    let d = find-keep (selects owner c) (owner, id) table u in
    elim (Option-cases (find (owner, id) table)) [
      | inl e ↦ ground (arith, a, b, rw e at d, e)
      | inr (r, e) ↦ ground (arith, a, b, rw e at d, e)
    ]

-- The answer to a request in what was loaded.
abbrev pub answer_in : Bytes → Option (List Suggestion) → Option Suggestion
answer_in id none = none
answer_in id (some list) = find_suggestion id list

pub answer_in-load :
    (owner c : ℕ) (id : Bytes) (table : Table)
    → (owner == 0) ≡ false
    → HasUniqueKeys table
    → answer_in id (load_ai_suggestions true owner c table)
      ≡ shown c (owner, id) (find (owner, id) table)
unfolding load_ai_suggestions
answer_in-load owner c id table o u = rw o (find_suggestion-load owner c id table u)

pub upsert-HasUniqueKeys :
    (committed reported : Bool) (owner : ℕ) (d : Suggestion) (table : Table)
    → HasUniqueKeys table
    → HasUniqueKeys (upsert_ai_suggestion committed reported owner d table).0
unfolding upsert_ai_suggestion
upsert-HasUniqueKeys committed reported owner d table u = ground (
  arith,
  u,
  put-HasUniqueKeys (owner, d.request_id) (merge d (find (owner, d.request_id) table)) table u,
)

pub find-upsert :
    (reported : Bool) (owner : ℕ) (id : Bytes) (d : Suggestion) (table : Table)
    → (owner == 0) ≡ false
    → is_empty d.request_id ≡ false
    → find (owner, id) (upsert_ai_suggestion true reported owner d table).0 ≡ (
        if key_eq (owner, id) (owner, d.request_id)
        then some (merge d (find (owner, d.request_id) table))
        else find (owner, id) table)
unfolding upsert_ai_suggestion
find-upsert reported owner id d table o e = ground (
  arith,
  o,
  e,
  find-put (owner, d.request_id) (owner, id) (merge d (find (owner, d.request_id) table)) table,
)

-- A suggestion under a new request id is stored, and the commit succeeds: a load of its conversation
-- has it, exactly as it was, as the answer to its request, and for every other request id, a load of
-- any conversation has the answer that it had before. Keys of the table are unique, the owner is
-- positive and the id not empty; the first suggestion is not empty, and none has the byte 0x1F.
pub load_ai_suggestions-upsert_ai_suggestion :
    (reported : Bool) (owner c : ℕ) (j : Bytes) (d : Suggestion) (table : Table)
    → let stored = (upsert_ai_suggestion true reported owner d table).0 in
      HasUniqueKeys table
      → (owner == 0) ≡ false
      → is_empty d.request_id ≡ false
      → find (owner, d.request_id) table ≡ none
      → IsSplittable d.suggestions
      → bytes_eq j d.request_id ≡ false
      → (answer_in d.request_id (load_ai_suggestions true owner d.conversation_id stored) ≡ some d)
        × (answer_in j (load_ai_suggestions true owner c stored)
            ≡ answer_in j (load_ai_suggestions true owner c table))
load_ai_suggestions-upsert_ai_suggestion reported owner c j d table u o e n k h =
    let stored = (upsert_ai_suggestion true reported owner d table).0 in
    let v = upsert-HasUniqueKeys true reported owner d table u in
    let a = answer_in-load owner d.conversation_id d.request_id stored o v in
    let b = find-upsert reported owner d.request_id d table o e in
    let a' = answer_in-load owner c j stored o v in
    let b' = find-upsert reported owner j d table o e in
    let before = answer_in-load owner c j table o u in
    let text = split_suggestions-join_suggestions d.suggestions k in
    (
      ground (arith, a, b, n, text, bytes_eq_iff d.request_id d.request_id),
      ground (arith, a', b', before, h),
    )
