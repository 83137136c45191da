-- ===== src/Runtime/Registry.antt =====
-- client_core/include/client_core/runtime/CompletionRegistry.h. `std::map` iterates by the order of
-- its keys, so the records stand in that order. The clock is an argument; `none` is a null clock.
pub mod Records
pub mod Exact
pub mod Calls
use jitong_app.Base.{
  ℕ, suc, ◌+◌, Bool, true, false, not, ◌&&◌, ◌||◌, Option, none, some, List, [], ◌∷◌, Bytes,
  bytes_eq, is_empty, ltb, leb, ◌==◌, if◌then◌else◌, length, keep, count_of,
}

pub data Outcome : Type 0 where
  ok cancelled failed timeout : Outcome

pub record Record : Type 0 where
  pub operation_id : Bytes
  pub result : Outcome
  pub consumed : Bool
  pub created_at : ℕ
  pub error_message : Bytes

pub record Registry : Type 0 where
  pub capacity : ℕ
  pub records : List Record

abbrev pub time_of : Option ℕ → ℕ
time_of none = 0
time_of (some now) = now

-- `<` of `std::string`.
pub bytes_lt : Bytes → Bytes → Bool
bytes_lt [] [] = false
bytes_lt [] (y ∷ ys) = true
bytes_lt (x ∷ xs) [] = false
bytes_lt (x ∷ xs) (y ∷ ys) = ltb x y || (x == y && bytes_lt xs ys)

unfoldable pub find_record : Bytes → List Record → Option Record
find_record id [] = none
find_record id (r ∷ rs) = if bytes_eq id r.operation_id then some r else find_record id rs

-- `emplace`, at a key that is not there.
unfoldable pub insert_record : Record → List Record → List Record
unfolding bytes_lt
insert_record r [] = r ∷ []
insert_record r (s ∷ rs) =
    if bytes_lt s.operation_id r.operation_id then s ∷ insert_record r rs else r ∷ s ∷ rs

-- evictOneLocked: without the first consumed record; `none` where there is none.
unfoldable pub evict_one : List Record → Option (List Record)
evict_one [] = none
evict_one (r ∷ rs) =
    if r.consumed
    then some rs
    else elim (evict_one rs) [ none ↦ none | some rest ↦ some (r ∷ rest) ]

abbrev put_record : Record → Registry → Registry × Bool
put_record r reg = (record reg { records = insert_record r reg.records }, true)

unfoldable pub make_room : Registry → Option Registry
make_room reg =
    if leb reg.capacity (length reg.records)
    then elim (evict_one reg.records) [ none ↦ none | some rs ↦ some (record reg { records = rs }) ]
    else some reg

unfoldable pub complete : Bytes → Outcome → Bytes → Option ℕ → Registry → Registry × Bool
complete id result error clock reg =
    if is_empty id then (reg, false) else elim (find_record id reg.records) [
      | some _ ↦ (reg, false)
      | none ↦ elim (make_room reg) [
        | none ↦ (reg, false)
        | some room ↦
            put_record
              (record {
                operation_id = id;
                result = result;
                consumed = false;
                created_at = time_of clock;
                error_message = error;
              })
              room
      ]
    ]

unfoldable pub peek : Bytes → Registry → Option Record
peek id reg = find_record id reg.records

unfoldable pub mark_consumed : Bytes → List Record → List Record
mark_consumed id [] = []
mark_consumed id (r ∷ rs) =
    if bytes_eq id r.operation_id
    then record r { consumed = true } ∷ rs
    else r ∷ mark_consumed id rs

-- `consume` hands the record out as it was before it is marked; `none` is `false`.
unfoldable pub consume : Bytes → Registry → Registry × Option Record
consume id reg = elim (find_record id reg.records) [
  | none ↦ (reg, none)
  | some r ↦ (record reg { records = mark_consumed id reg.records }, some r)
]

abbrev pub is_evictable : ℕ → ℕ → Record → Bool
is_evictable ttl now r = r.consumed || leb (r.created_at + ttl) now

-- evictExpired: the number of records that were dropped.
unfoldable pub evict_expired : ℕ → Option ℕ → Registry → Registry × ℕ
evict_expired ttl clock reg =
    let gone = is_evictable ttl (time_of clock) in
    (
      record reg { records = keep (λ (r : Record). not (gone r)) reg.records },
      count_of gone reg.records,
    )

unfoldable pub unconsumed_count : Registry → ℕ
unconsumed_count reg = count_of (λ (r : Record). not r.consumed) reg.records

unfoldable pub reset : Registry → Registry
reset reg = record reg { records = [] }
