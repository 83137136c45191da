-- ===== src/Storage/Suggestions.antt =====
-- client_core/src/storage/NativeRepository.cpp: the table ai_suggestions, whose primary key is
-- (owner_id, request_id), and the text in which a row keeps its list of suggestions. Whether SQLite
-- commits, what the wait for the writer reports, and whether a read succeeds are arguments.
pub mod Text
pub mod Loading
pub mod Restart
mod Tests
use jitong_app.Base.{
  ℕ, Bool, true, false, not, ◌&&◌, ◌||◌, ◌↔◌, ◌≡◌, Option, none, some, List, [], ◌∷◌, ◌++◌, map,
  Bytes, bytes_eq, bytes_eq_iff, ==_iff, is_empty, ltb, ◌==◌, if◌then◌else◌, keep, arith,
}
use jitong_app.Base.Dict.{Eq, find, put}
use jitong_app.Services.Suggestions.{AiStatus, Suggestion}

-- joinSuggestions: the separator is 0x1F.
unfoldable pub join_from : Bytes → List Bytes → Bytes
join_from out [] = out
join_from out (it ∷ items) = join_from ((if is_empty out then out else out ++ 31 ∷ []) ++ it) items

abbrev pub join_suggestions : List Bytes → Bytes
join_suggestions items = join_from [] items

-- splitSuggestions: the loop, with the text since the last separator.
unfoldable pub split_from : Bytes → Bytes → List Bytes
split_from item [] = item ∷ []
split_from item (c ∷ s) =
    let separated = split_from [] s in
    let longer = split_from (item ++ c ∷ []) s in if c == 31 then item ∷ separated else longer

abbrev pub split_suggestions : Bytes → List Bytes
split_suggestions s = if is_empty s then [] else split_from [] s

abbrev pub Key : Type 0
Key = ℕ × Bytes

pub record Row : Type 0 where
  pub conversation_id : ℕ
  pub peer_id : ℕ
  pub tone : Bytes
  pub status : AiStatus
  pub suggestions : Bytes
  pub error_code : ℕ
  pub generated_at : ℕ
  pub context_version : Bytes

abbrev pub key_eq : Key → Key → Bool
key_eq (o, a) (p, b) = o == p && bytes_eq a b

pub key_eq_iff : (a b : Key) → (key_eq a b ≡ true) ↔ (a ≡ b)
key_eq_iff (o, a) (p, b) = ground (arith, bytes_eq_iff a b, ==_iff o p)

instance abbrev pub key_Eq : Eq Key
key_Eq = record { beq = key_eq; beq_iff = key_eq_iff }

abbrev pub Table : Type 0
Table = List (Key × Row)

abbrev pub row_of : Suggestion → Row
row_of d = record {
  conversation_id = d.conversation_id;
  peer_id = d.peer_id;
  tone = d.tone;
  status = d.status;
  suggestions = join_suggestions d.suggestions;
  error_code = d.error_code;
  generated_at = d.generated_at;
  context_version = d.context_version;
}

-- ON CONFLICT DO UPDATE: the conversation, the peer and the tone of the row stay.
abbrev pub merge : Suggestion → Option Row → Row
merge d none = row_of d
merge d (some r) = record r {
  status = d.status;
  suggestions = join_suggestions d.suggestions;
  error_code = d.error_code;
  generated_at = d.generated_at;
  context_version = d.context_version;
}

unfoldable pub upsert_ai_suggestion : Bool → Bool → ℕ → Suggestion → Table → Table × Bool
upsert_ai_suggestion committed reported owner d table =
    let k : Key = (owner, d.request_id) in
    if owner == 0 || is_empty d.request_id
    then (table, false)
    else if committed
    then (put k (merge d (find k table)) table, reported)
    else (table, reported)

unfoldable pub bytes_lt : Bytes → Bytes → Bool
bytes_lt xs [] = false
bytes_lt [] (y ∷ ys) = true
bytes_lt (x ∷ xs) (y ∷ ys) = let rest = bytes_lt xs ys in ltb x y || (x == y && rest)

-- ORDER BY generated_at, request_id
abbrev pub comes_before : Key × Row → Key × Row → Bool
comes_before (k, r) (j, q) =
    ltb r.generated_at q.generated_at || (r.generated_at == q.generated_at && bytes_lt k.1 j.1)

unfoldable pub insert_row : Key × Row → Table → Table
insert_row e [] = e ∷ []
insert_row e (x ∷ rows) =
    let rest = insert_row e rows in if comes_before x e then x ∷ rest else e ∷ x ∷ rows

unfoldable pub order_rows : Table → Table
unfolding insert_row
order_rows [] = []
order_rows (e ∷ rows) = insert_row e (order_rows rows)

abbrev pub dto_of : Key × Row → Suggestion
dto_of (k, r) = record {
  request_id = k.1;
  conversation_id = r.conversation_id;
  peer_id = r.peer_id;
  tone = r.tone;
  status = r.status;
  suggestions = split_suggestions r.suggestions;
  error_code = r.error_code;
  generated_at = r.generated_at;
  context_version = r.context_version;
}

abbrev pub selects : ℕ → ℕ → Key × Row → Bool
selects owner conversation_id (k, r) = k.0 == owner && r.conversation_id == conversation_id

-- `none` is the answer false, which leaves the list empty.
unfoldable pub load_ai_suggestions : Bool → ℕ → ℕ → Table → Option (List Suggestion)
load_ai_suggestions readable owner conversation_id table =
    if not readable || owner == 0
    then none
    else some (map dto_of (order_rows (keep (selects owner conversation_id) table)))
