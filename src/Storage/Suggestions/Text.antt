-- ===== src/Storage/Suggestions/Text.antt =====
-- NativeRepository.cpp: a list of suggestions in one text.
use jitong_app.Base.{
  ℕ, ◌≡◌, refl, sym, ap, ◌∙◌, false, List, [], ◌∷◌, ◌++◌, Bytes, is_empty, ◌==◌, All,
}
use mathlib.Core.List.{append-nil, append_assoc}
use jitong_app.Storage.Suggestions.{join_from, join_suggestions, split_from, split_suggestions}

-- No byte of the text is the separator.
abbrev pub IsPlain : Bytes → Type 0
IsPlain s = All (λ c. (c == 31) ≡ false) s

-- The first text is not empty, and none has the separator.
abbrev pub IsSplittable : List Bytes → Type 0
IsSplittable [] = Unit
IsSplittable (x ∷ items) = (is_empty x ≡ false) × All IsPlain (x ∷ items)

abbrev tail_of : List Bytes → Bytes
tail_of [] = []
tail_of (x ∷ items) = 31 ∷ x ++ tail_of items

snoc_append : (xs : Bytes) (c : ℕ) (ys : Bytes) → (xs ++ c ∷ []) ++ ys ≡ xs ++ c ∷ ys
snoc_append [] c ys = refl
snoc_append (x ∷ xs) c ys = ap (λ (s : Bytes). x ∷ s) (snoc_append xs c ys)

nonempty_append : (xs ys : Bytes) → is_empty xs ≡ false → is_empty (xs ++ ys) ≡ false
nonempty_append [] ys h = cc
nonempty_append (x ∷ xs) ys h = refl

join_from_lem :
    (out : Bytes) (items : List Bytes)
    → is_empty out ≡ false
    → join_from out items ≡ out ++ tail_of items
unfolding join_from
join_from_lem out [] h = sym (append-nil out)
join_from_lem out (it ∷ items) h = rw h (
    join_from_lem ((out ++ 31 ∷ []) ++ it) items
      (nonempty_append (out ++ 31 ∷ []) it (nonempty_append out (31 ∷ []) h))
    ∙ append_assoc (out ++ 31 ∷ []) it (tail_of items)
    ∙ snoc_append out 31 (it ++ tail_of items))

split_from-plain :
    (rest : Bytes) (items : List Bytes)
    → ((item : Bytes) → split_from item rest ≡ item ∷ items)
    → (x item : Bytes) → IsPlain x
    → split_from item (x ++ rest) ≡ (item ++ x) ∷ items
unfolding split_from
split_from-plain rest items ends [] item h = rw (append-nil item) (ends item)
split_from-plain rest items ends (c ∷ x) item h = rw h.0 (
    split_from-plain rest items ends x (item ++ c ∷ []) h.1
    ∙ ap (λ (s : Bytes). s ∷ items) (snoc_append item c x))

split_from-tail_of :
    (items : List Bytes) (item : Bytes)
    → All IsPlain items
    → split_from item (tail_of items) ≡ item ∷ items
unfolding split_from
split_from-tail_of [] item h = refl
split_from-tail_of (x ∷ items) item h =
    ap (λ (r : List Bytes). item ∷ r)
      (split_from-plain (tail_of items) items (λ i. split_from-tail_of items i h.1) x [] h.0)

-- A list is read back from the text it was joined into.
pub split_suggestions-join_suggestions :
    (items : List Bytes) → IsSplittable items → split_suggestions (join_suggestions items) ≡ items
unfolding join_from
split_suggestions-join_suggestions [] h = refl
split_suggestions-join_suggestions (x ∷ items) h =
    rw (join_from_lem x items h.0, nonempty_append x (tail_of items) h.0)
      (split_from-plain (tail_of items) items (λ i. split_from-tail_of items i h.1.1) x [] h.1.0)
