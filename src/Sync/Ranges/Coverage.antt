-- ===== src/Sync/Ranges/Coverage.antt =====
-- What the operations on ranges mean for the set of the numbers that have arrived.
use jitong_app.Base.{
  ℕ, ◌+◌, ◌≤◌, ◌<◌, min, max, ◌≡◌, refl, Bool, true, false, not, ◌&&◌, ◌||◌, List, [], ◌∷◌, leb,
  arith,
}
use jitong_app.Sync.Ranges.{
  Range, absorb, insert_range, add_arrived, gaps_between, compute_gaps, contiguous, covers,
}
use jitong_app.Sync.Ranges.Normal.{IsNormalFrom, IsNormal}

abbrev pub in_interval : ℕ → ℕ → ℕ → Bool
in_interval f t x = leb f x && leb x t

covers-absorb :
    (x b f t : ℕ) (rs : List Range)
    → f ≤ t
    → f ≤ b
    → IsNormalFrom b rs
    → covers x (absorb f t rs) ≡ (in_interval f t x || covers x rs)
unfolding absorb covers
covers-absorb x b f t [] hf hb n = refl
covers-absorb x b f t (r ∷ rs) hf hb n =
    ground (arith, covers-absorb x (r.to + 2) f (max t r.to) rs)

covers-insert_range :
    (x b f t : ℕ) (rs : List Range)
    → f ≤ t
    → IsNormalFrom b rs
    → covers x (insert_range f t rs) ≡ (in_interval f t x || covers x rs)
unfolding insert_range covers
covers-insert_range x b f t [] hf n = refl
covers-insert_range x b f t (r ∷ rs) hf n = ground (
  arith,
  covers-insert_range x (r.to + 2) f t rs,
  covers-absorb x (r.to + 2) (min r.from f) (max r.to t) rs,
)

-- On a normal list, adding [f, t] makes exactly its numbers arrive besides those that had.
pub covers-add_arrived :
    (x f t : ℕ) (rs : List Range)
    → IsNormal rs
    → covers x (add_arrived f t rs) ≡ (in_interval f t x || covers x rs)
unfolding add_arrived
covers-add_arrived x f t rs n = ground (arith, covers-insert_range x 1 f t rs)

-- The end of the last range; 0 if nothing has arrived.
abbrev pub top_from : ℕ → List Range → ℕ
top_from t [] = t
top_from t (r ∷ rs) = top_from r.to rs

abbrev pub top : List Range → ℕ
top rs = top_from 0 rs

pub top_from-le : (t : ℕ) (rs : List Range) → IsNormalFrom (t + 2) rs → t ≤ top_from t rs
top_from-le t [] n = omega arith
top_from-le t (r ∷ rs) n = ground (arith, top_from-le r.to rs)

pub covers-below : (x b : ℕ) (rs : List Range) → IsNormalFrom b rs → x < b → covers x rs ≡ false
unfolding covers
covers-below x b [] n h = refl
covers-below x b (r ∷ rs) n h = ground (arith, covers-below x (r.to + 2) rs)

covers-gaps_between :
    (x : ℕ) (r : Range) (rs : List Range)
    → IsNormalFrom (r.to + 2) rs
    → covers x (gaps_between r rs)
      ≡ (in_interval (r.to + 1) (top_from r.to rs) x && not (covers x rs))
unfolding covers gaps_between
covers-gaps_between x r [] n = ground arith
covers-gaps_between x r (s ∷ rs) n =
    ground (arith, covers-gaps_between x s rs, top_from-le s.to rs, covers-below x (s.to + 2) rs)

-- A number lies in a gap exactly if it is at least 1, at most the last arrived number, and has not
-- arrived itself, provided that the arrived ranges are normal.
pub covers-compute_gaps :
    (x : ℕ) (rs : List Range)
    → IsNormal rs
    → covers x (compute_gaps rs) ≡ (in_interval 1 (top rs) x && not (covers x rs))
unfolding covers compute_gaps
covers-compute_gaps x [] n = ground arith
covers-compute_gaps x (r ∷ rs) n =
    ground (arith, covers-gaps_between x r rs, top_from-le r.to rs, covers-below x (r.to + 2) rs)

-- The watermark of a normal list is the end of the arrived prefix: every number from 1 up to it
-- has arrived, and the number behind it has not.
pub contiguous_exact :
    (rs : List Range)
    → IsNormal rs
    → ((x : ℕ) → 1 ≤ x → x ≤ contiguous rs → covers x rs ≡ true)
      × (covers (contiguous rs + 1) rs ≡ false)
unfolding covers contiguous
contiguous_exact [] n = (λ x h k. absurd (omega arith), refl)
contiguous_exact (r ∷ rs) n = (
  λ x h k. ground arith,
  ground (arith, covers-below (r.to + 1) (r.to + 2) rs, covers-below 1 (r.to + 2) rs),
)
