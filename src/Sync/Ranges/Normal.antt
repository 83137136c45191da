-- ===== src/Sync/Ranges/Normal.antt =====
-- The arrived ranges stay sorted, disjoint and apart by at least one missing number.
use jitong_app.Base.{ℕ, ◌+◌, ◌≤◌, min, max, List, [], ◌∷◌, arith}
use jitong_app.Sync.Ranges.{Range, absorb, insert_range, add_arrived}

-- Every range of the list begins at `b` or above, and the next one leaves at least one number out.
abbrev pub IsNormalFrom : ℕ → List Range → Type 0
IsNormalFrom b [] = Unit {0}
IsNormalFrom b (r ∷ rs) = (b ≤ r.from) × (r.from ≤ r.to) × IsNormalFrom (r.to + 2) rs

-- Sequence numbers start from 1.
abbrev pub IsNormal : List Range → Type 0
IsNormal rs = IsNormalFrom 1 rs

pub absorb-IsNormalFrom :
    (b c f t : ℕ) (rs : List Range)
    → b ≤ f
    → f ≤ t
    → IsNormalFrom c rs
    → IsNormalFrom b (absorb f t rs)
unfolding absorb
absorb-IsNormalFrom b c f t [] hb hf n = (hb, hf, tt)
absorb-IsNormalFrom b c f t (r ∷ rs) hb hf n =
    ground (arith, absorb-IsNormalFrom b (r.to + 2) f (max t r.to) rs)

pub insert_range-IsNormalFrom :
    (b f t : ℕ) (rs : List Range)
    → b ≤ f
    → f ≤ t
    → IsNormalFrom b rs
    → IsNormalFrom b (insert_range f t rs)
unfolding insert_range
insert_range-IsNormalFrom b f t [] hb hf n = (hb, hf, tt)
insert_range-IsNormalFrom b f t (r ∷ rs) hb hf n = ground (
  arith,
  insert_range-IsNormalFrom (r.to + 2) f t rs,
  absorb-IsNormalFrom b (r.to + 2) (min r.from f) (max r.to t) rs,
)

-- Adding an arrived range of positive numbers keeps the list normal: sorted, disjoint, and with at
-- least one missing number between two ranges.
pub add_arrived-IsNormal :
    (f t : ℕ) (rs : List Range) → 1 ≤ f → IsNormal rs → IsNormal (add_arrived f t rs)
unfolding add_arrived
add_arrived-IsNormal f t rs h n = ground (arith, insert_range-IsNormalFrom 1 f t rs)
