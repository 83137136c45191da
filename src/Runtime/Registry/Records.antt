-- ===== src/Runtime/Registry/Records.antt =====
-- The record list of CompletionRegistry: no two records have one operation id.
use mathlib.Core.Option
use jitong_app.Base.{
  suc, ◌≡◌, refl, Bool, true, false, not, none, some, List, [], ◌∷◌, Bytes, bytes_eq, bytes_eq_iff,
  if◌then◌else◌, length, keep, count_of, arith, inl, inr, Option-cases, Bool-cases,
}
use jitong_app.Runtime.Registry.{Record, find_record, insert_record, evict_one, mark_consumed}

-- Ids are distinct.
abbrev pub HasUniqueIds : List Record → Type 0
HasUniqueIds [] = Unit {0}
HasUniqueIds (r ∷ rs) = (find_record r.operation_id rs ≡ none) × HasUniqueIds rs

pub find_record-insert_record :
    (id : Bytes) (r : Record) (rs : List Record)
    → find_record r.operation_id rs ≡ none
    → find_record id (insert_record r rs)
      ≡ (if bytes_eq id r.operation_id then some r else find_record id rs)
unfolding find_record insert_record
find_record-insert_record id r [] n = refl
find_record-insert_record id r (s ∷ rs) n = ground (
  arith,
  find_record-insert_record id r rs,
  bytes_eq_iff id r.operation_id,
  bytes_eq_iff id s.operation_id,
  bytes_eq_iff r.operation_id s.operation_id,
)

pub insert_record-HasUniqueIds :
    (r : Record) (rs : List Record)
    → find_record r.operation_id rs ≡ none
    → HasUniqueIds rs
    → HasUniqueIds (insert_record r rs)
unfolding insert_record find_record
insert_record-HasUniqueIds r [] n u = (refl, tt)
insert_record-HasUniqueIds r (s ∷ rs) n u = ground (
  arith,
  insert_record-HasUniqueIds r rs,
  find_record-insert_record s.operation_id r rs,
  bytes_eq_iff s.operation_id r.operation_id,
  bytes_eq_iff r.operation_id s.operation_id,
)

pub length-insert_record :
    (r : Record) (rs : List Record) → length (insert_record r rs) ≡ suc (length rs)
unfolding insert_record
length-insert_record r [] = refl
length-insert_record r (s ∷ rs) = ground (arith, length-insert_record r rs)

module _ (id : Bytes) where
  -- What an eviction leaves: one record fewer, no new id, and every unconsumed record.
  pub record Evicted (rs rest : List Record) : Type 0 where
    pub shorter : length rs ≡ suc (length rest)
    pub no_new : find_record id rs ≡ none → find_record id rest ≡ none
    pub kept :
        (r : Record)
        → find_record id rs ≡ some r
        → r.consumed ≡ false
        → find_record id rest ≡ some r

  evict_here :
      (r : Record) (rs : List Record)
      → r.consumed ≡ true
      → HasUniqueIds (r ∷ rs)
      → Evicted (r ∷ rs) rs
  unfolding find_record
  evict_here r rs c u = record {
    shorter = refl;
    no_new = λ n. ground (arith, bytes_eq_iff id r.operation_id);
    kept = λ s e f. ground (arith, bytes_eq_iff id r.operation_id);
  }

  evict_later : (r : Record) (rs rest : List Record) → Evicted rs rest → Evicted (r ∷ rs) (r ∷ rest)
  unfolding find_record
  evict_later r rs rest v = record {
    shorter = omega (arith, v.shorter);
    no_new = λ n. ground (arith, v.no_new);
    kept = λ s e f. ground (arith, v.kept s);
  }

  pub evict_one-Evicted :
      (rs rest : List Record) → HasUniqueIds rs → evict_one rs ≡ some rest → Evicted rs rest
  unfolding evict_one
  evict_one-Evicted [] rest u e = absurd (ground arith)
  evict_one-Evicted (r ∷ rs) rest u e = elim (Bool-cases r.consumed) [
    | inl c ↦ let e' : rs ≡ rest = ground arith in rw (← e') (evict_here r rs c u)
    | inr c ↦ elim (Option-cases (evict_one rs)) [
      | inl n ↦ absurd (ground arith)
      | inr (later, m) ↦
          let e' : rest ≡ r ∷ later = ground arith in
          rw e' (evict_later r rs later (evict_one-Evicted rs later u.1 m))
    ]
  ]

pub evict_one-HasUniqueIds :
    (rs rest : List Record) → HasUniqueIds rs → evict_one rs ≡ some rest → HasUniqueIds rest
unfolding evict_one
evict_one-HasUniqueIds [] rest u e = absurd (ground arith)
evict_one-HasUniqueIds (r ∷ rs) rest u e = elim (Bool-cases r.consumed) [
  | inl c ↦ let e' : rs ≡ rest = ground arith in rw (← e') u.1
  | inr c ↦ elim (Option-cases (evict_one rs)) [
    | inl n ↦ absurd (ground arith)
    | inr (later, m) ↦
        let e' : rest ≡ r ∷ later = ground arith in
        rw e' (
          (evict_one-Evicted r.operation_id rs later u.1 m).no_new u.0,
          evict_one-HasUniqueIds rs later u.1 m,
        )
  ]
]

-- There is no room exactly if no record is consumed.
pub evict_one-none :
    (rs : List Record)
    → evict_one rs ≡ none
    → count_of (λ (r : Record). not r.consumed) rs ≡ length rs
unfolding evict_one
evict_one-none [] e = refl
evict_one-none (r ∷ rs) e = ground (arith, evict_one-none rs)

pub find_record-mark_consumed :
    (id j : Bytes) (rs : List Record)
    → find_record j (mark_consumed id rs) ≡ (
        if bytes_eq j id
        then Option.map (λ (r : Record). record r { consumed = true }) (find_record j rs)
        else find_record j rs)
unfolding find_record mark_consumed
find_record-mark_consumed id j [] = ground arith
find_record-mark_consumed id j (r ∷ rs) = ground (
  arith,
  find_record-mark_consumed id j rs,
  bytes_eq_iff id r.operation_id,
  bytes_eq_iff j r.operation_id,
  bytes_eq_iff j id,
)

pub mark_consumed-HasUniqueIds :
    (id : Bytes) (rs : List Record) → HasUniqueIds rs → HasUniqueIds (mark_consumed id rs)
unfolding mark_consumed
mark_consumed-HasUniqueIds id [] u = tt
mark_consumed-HasUniqueIds id (r ∷ rs) u =
    ground (arith, mark_consumed-HasUniqueIds id rs, find_record-mark_consumed id r.operation_id rs)

pub length-mark_consumed :
    (id : Bytes) (rs : List Record) → length (mark_consumed id rs) ≡ length rs
unfolding mark_consumed
length-mark_consumed id [] = refl
length-mark_consumed id (r ∷ rs) = ground (arith, length-mark_consumed id rs)

pub find_record-keep :
    (p : Record → Bool) (id : Bytes) (rs : List Record)
    → HasUniqueIds rs
    → find_record id (keep p rs)
      ≡ elim (find_record id rs) [ none ↦ none | some r ↦ (if p r then some r else none) ]
unfolding find_record
find_record-keep p id [] u = refl
find_record-keep p id (r ∷ rs) u =
    ground (arith, find_record-keep p id rs, bytes_eq_iff id r.operation_id)

pub keep-HasUniqueIds :
    (p : Record → Bool) (rs : List Record) → HasUniqueIds rs → HasUniqueIds (keep p rs)
keep-HasUniqueIds p [] u = tt
keep-HasUniqueIds p (r ∷ rs) u =
    ground (arith, keep-HasUniqueIds p rs, find_record-keep p r.operation_id rs)
