-- ===== src/Sync/Ranges.antt =====
-- The arrived ranges of SyncTracker.h: `addArrived`, `computeGaps`, `contiguousSeq`.
-- A sequence number is a natural number; `r.to < from - 1` is written without the subtraction.
pub mod Normal
pub mod Coverage
pub mod Canonical
use jitong_app.Base.{
  ℕ, suc, ◌+◌, ◌-◌, min, max, Bool, true, false, ◌&&◌, ◌||◌, List, [], ◌∷◌, ltb, leb, ◌==◌,
  if◌then◌else◌,
}

pub record Range : Type 0 where
  pub from : ℕ
  pub to : ℕ

-- The `while` of `addArrived`: ranges that touch [from, to] are merged into it.
unfoldable pub absorb : ℕ → ℕ → List Range → List Range
absorb f t [] = record { from = f; to = t } ∷ []
absorb f t (r ∷ rs) =
    if leb r.from (t + 1) then absorb f (max t r.to) rs else record { from = f; to = t } ∷ r ∷ rs

-- `lower_bound` skips the ranges that end before `from - 1`; then merge or insert.
unfoldable pub insert_range : ℕ → ℕ → List Range → List Range
unfolding absorb
insert_range f t [] = record { from = f; to = t } ∷ []
insert_range f t (r ∷ rs) =
    if ltb (r.to + 1) f
    then r ∷ insert_range f t rs
    else if leb r.from (t + 1)
    then absorb (min r.from f) (max r.to t) rs
    else record { from = f; to = t } ∷ r ∷ rs

unfoldable pub add_arrived : ℕ → ℕ → List Range → List Range
add_arrived f t rs = if ltb t f then rs else insert_range f t rs

-- The gaps between neighbouring ranges.
unfoldable pub gaps_between : Range → List Range → List Range
gaps_between r [] = []
gaps_between r (s ∷ rs) =
    let rest = gaps_between s rs in
    if leb (r.to + 1) (s.from - 1) then record { from = r.to + 1; to = s.from - 1 } ∷ rest else rest

unfoldable pub compute_gaps : List Range → List Range
unfolding gaps_between
compute_gaps [] = []
compute_gaps (r ∷ rs) =
    let rest = gaps_between r rs in
    if ltb 1 r.from then record { from = 1; to = r.from - 1 } ∷ rest else rest

unfoldable pub contiguous : List Range → ℕ
contiguous [] = 0
contiguous (r ∷ rs) = if r.from == 1 then r.to else 0

-- What the ranges stand for: the set of the sequence numbers in them.
abbrev pub within : ℕ → Range → Bool
within x r = leb r.from x && leb x r.to

unfoldable pub covers : ℕ → List Range → Bool
covers x [] = false
covers x (r ∷ rs) = within x r || covers x rs
