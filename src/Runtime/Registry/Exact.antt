-- ===== src/Runtime/Registry/Exact.antt =====
-- CompletionRegistry: one outcome for an operation, and none is lost before it is consumed.

use jitong_app.Base.{
  ℕ, ◌≤◌, ◌<◌, ◌≡◌, refl, ap, Bool, true, false, not, Option, none, some, List, [], ◌∷◌, Bytes,
  bytes_eq_iff, bytes_eq_refl, is_empty, length, length-keep-le, count_of, arith, inl, inr,
  Option-cases, Bool-cases, leb,
}
use jitong_app.Runtime.Registry.{
  Outcome, Record, Registry, time_of, find_record, insert_record, evict_one, make_room, complete,
  peek, consume, is_evictable, evict_expired,
}
use jitong_app.Runtime.Registry.Records.{
  HasUniqueIds, find_record-insert_record, insert_record-HasUniqueIds, length-insert_record,
  evict_one-Evicted, evict_one-HasUniqueIds, mark_consumed-HasUniqueIds, length-mark_consumed,
  keep-HasUniqueIds,
}

pub record Inv (reg : Registry) : Type 0 where
  pub unique : HasUniqueIds reg.records
  pub bounded : length reg.records ≤ reg.capacity

-- What `make_room` has made: a registry with a free place, in which nothing unconsumed is lost.
record HasRoom (reg room : Registry) : Type 0 where
  unique : HasUniqueIds room.records
  free : length room.records < room.capacity
  no_new : (id : Bytes) → find_record id reg.records ≡ none → find_record id room.records ≡ none
  kept :
      (id : Bytes) (r : Record)
      → find_record id reg.records ≡ some r
      → r.consumed ≡ false
      → find_record id room.records ≡ some r

make_room-HasRoom : (reg room : Registry) → Inv reg → make_room reg ≡ some room → HasRoom reg room
unfolding make_room
make_room-HasRoom reg room v e = elim (Bool-cases (leb reg.capacity (length reg.records))) [
  | inl full ↦ elim (Option-cases (evict_one reg.records)) [
    | inl n ↦ absurd (ground arith)
    | inr (rest, m) ↦
        let e' : room ≡ record reg { records = rest } = ground arith in
        let gone = λ (id : Bytes). evict_one-Evicted id reg.records rest v.unique m in
        rw e' (record {
          unique = evict_one-HasUniqueIds reg.records rest v.unique m;
          free = omega (arith, v.bounded, (gone []).shorter);
          no_new = λ id n. (gone id).no_new n;
          kept = λ id r f c. (gone id).kept r f c;
        })
  ]
  | inr free ↦
      let e' : room ≡ reg = ground arith in
      rw e' (record {
        unique = v.unique;
        free = ground arith;
        no_new = λ id n. n;
        kept = λ id r f c. f;
      })
]

abbrev pub record_of : Bytes → Outcome → Bytes → Option ℕ → Record
record_of id result error clock = record {
  operation_id = id;
  result = result;
  consumed = false;
  created_at = time_of clock;
  error_message = error;
}

module _ (id : Bytes) (result : Outcome) (error : Bytes) (clock : Option ℕ) (reg : Registry) where
  -- The ways a call of `complete` can go.
  data Completed : Registry × Bool → Type 0 where
    refused : (out : Registry × Bool) → out ≡ (reg, false) → Completed out
    accepted :
        (room : Registry) (out : Registry × Bool)
        → HasRoom reg room
        → find_record id reg.records ≡ none
        → out ≡ (
          record room { records = insert_record (record_of id result error clock) room.records },
          true,
        )
        → Completed out

  complete-Completed : Inv reg → Completed (complete id result error clock reg)
  unfolding complete
  complete-Completed v = elim (Bool-cases (is_empty id)) [
    | inl e ↦ refused _ (rw e)
    | inr e ↦ elim (Option-cases (find_record id reg.records)) [
      | inr (r, f) ↦ refused _ (rw (e, f))
      | inl f ↦ elim (Option-cases (make_room reg)) [
        | inl m ↦ refused _ (rw (e, f, m))
        | inr (room, m) ↦ accepted room _ (make_room-HasRoom reg room v m) f (rw (e, f, m))
      ]
    ]
  ]

pub complete-Inv :
    (id : Bytes) (result : Outcome) (error : Bytes) (clock : Option ℕ) (reg : Registry)
    → Inv reg
    → Inv (complete id result error clock reg).0
complete-Inv id result error clock reg v = go _ (complete-Completed id result error clock reg v)
  where
    go : (out : Registry × Bool) → Completed id result error clock reg out → Inv out.0
    go out (refused o e) = rw e v
    go out (accepted room o h n e) =
        let r = record_of id result error clock in
        rw e (record {
          unique = insert_record-HasUniqueIds r room.records (h.no_new id n) h.unique;
          bounded = omega (arith, h.free, length-insert_record r room.records);
        })

pub consume-Inv : (id : Bytes) (reg : Registry) → Inv reg → Inv (consume id reg).0
unfolding consume
consume-Inv id reg v =
    ground (arith, mark_consumed-HasUniqueIds id reg.records, length-mark_consumed id reg.records)

pub evict_expired-Inv :
    (ttl : ℕ) (clock : Option ℕ) (reg : Registry) → Inv reg → Inv (evict_expired ttl clock reg).0
unfolding evict_expired
evict_expired-Inv ttl clock reg v = record {
  unique = keep-HasUniqueIds _ reg.records v.unique;
  bounded = omega (
    arith,
    v.bounded,
    length-keep-le (λ (r : Record). not (is_evictable ttl (time_of clock) r)) reg.records,
  );
}

-- A record that is there and not consumed is still there after any `complete`, unchanged.
pub complete-kept :
    (id j : Bytes) (result : Outcome) (error : Bytes) (clock : Option ℕ) (reg : Registry)
    (r : Record)
    → Inv reg
    → find_record j reg.records ≡ some r
    → r.consumed ≡ false
    → find_record j (complete id result error clock reg).0.records ≡ some r
complete-kept id j result error clock reg r v f c =
    go _ (complete-Completed id result error clock reg v)
  where
    go :
        (out : Registry × Bool)
        → Completed id result error clock reg out
        → find_record j out.0.records ≡ some r
    go out (refused o e) = rw e f
    go out (accepted room o h n e) = rw e (
        ground (
          arith,
          find_record-insert_record j (record_of id result error clock) room.records,
          h.no_new id n,
          h.kept j r f c,
          bytes_eq_iff j id,
          n,
          f,
        ))

-- If `complete` accepts an outcome, then the registry holds it, unconsumed, and a further outcome
-- for the same operation is refused and changes nothing, provided that the registry is bounded and
-- its ids are distinct.
pub complete_once :
    (id : Bytes) (result result' : Outcome) (error error' : Bytes) (clock clock' : Option ℕ)
    (reg : Registry)
    → Inv reg
    → (complete id result error clock reg).1 ≡ true
    → let reg' = (complete id result error clock reg).0 in
      (peek id reg' ≡ some (record_of id result error clock))
      × (complete id result' error' clock' reg' ≡ (reg', false))
complete_once id result result' error error' clock clock' reg v a =
    go _ (complete-Completed id result error clock reg v) a
  where
    again :
        (reg' : Registry) (r : Record)
        → find_record id reg'.records ≡ some r
        → complete id result' error' clock' reg' ≡ (reg', false)
    again reg' r f =
        unfold complete in elim (Bool-cases (is_empty id)) [ inl e ↦ rw e | inr e ↦ rw (e, f) ]

    go :
        (out : Registry × Bool)
        → Completed id result error clock reg out
        → out.1 ≡ true
        → (peek id out.0 ≡ some (record_of id result error clock))
          × (complete id result' error' clock' out.0 ≡ (out.0, false))
    go out (refused o e) t = cc (ap (λ (x : Registry × Bool). x.1) e)
    go out (accepted room o h n e) t =
        let found : find_record id out.0.records ≡ some (record_of id result error clock) = rw e (
          ground (
            arith,
            find_record-insert_record id (record_of id result error clock) room.records,
            h.no_new id n,
            bytes_eq_refl id,
          )) in
        (unfold peek in found, again out.0 (record_of id result error clock) found)

evict_one_busy :
    (rs : List Record) → count_of (λ (r : Record). r.consumed) rs ≡ 0 → evict_one rs ≡ none
unfolding evict_one
evict_one_busy [] e = refl
evict_one_busy (r ∷ rs) e = ground (arith, evict_one_busy rs)

-- A full registry with no consumed record refuses every outcome and stays as it is, whether records
-- have expired or not.
pub complete_full :
    (id : Bytes) (result : Outcome) (error : Bytes) (clock : Option ℕ) (reg : Registry)
    → reg.capacity ≤ length reg.records
    → count_of (λ (r : Record). r.consumed) reg.records ≡ 0
    → complete id result error clock reg ≡ (reg, false)
unfolding complete make_room
complete_full id result error clock reg full busy = ground (arith, evict_one_busy reg.records)
