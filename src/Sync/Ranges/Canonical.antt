-- ===== src/Sync/Ranges/Canonical.antt =====
-- A normal list is determined by the set of the numbers in it.
use jitong_app.Base.{ℕ, ◌+◌, ◌≤◌, ◌≡◌, refl, sym, true, false, List, [], ◌∷◌, arith}
use jitong_app.Sync.Ranges.{Range, covers}
use jitong_app.Sync.Ranges.Normal.{IsNormalFrom, IsNormal}
use jitong_app.Sync.Ranges.Coverage.{covers-below}

abbrev pub SameNumbers : List Range → List Range → Type 0
SameNumbers rs ss = (x : ℕ) → covers x rs ≡ covers x ss

covers-head :
    (b : ℕ) (r : Range) (rs : List Range) → IsNormalFrom b (r ∷ rs) → covers r.from (r ∷ rs) ≡ true
unfolding covers
covers-head b r rs n = ground arith

covers-next :
    (b : ℕ) (r : Range) (rs : List Range)
    → IsNormalFrom b (r ∷ rs)
    → covers (r.to + 1) (r ∷ rs) ≡ false
unfolding covers
covers-next b r rs n = ground (arith, covers-below (r.to + 1) (r.to + 2) rs)

-- What a list with a first range covers tells where the other list begins.
from-le :
    (b : ℕ) (r s : Range) (rs ss : List Range)
    → IsNormalFrom b (r ∷ rs)
    → IsNormalFrom b (s ∷ ss)
    → covers r.from (r ∷ rs) ≡ covers r.from (s ∷ ss)
    → s.from ≤ r.from
unfolding covers
from-le b r s rs ss n m e = ground (arith, covers-below r.from (s.to + 2) ss)

to-le :
    (b : ℕ) (r s : Range) (rs ss : List Range)
    → IsNormalFrom b (r ∷ rs)
    → IsNormalFrom b (s ∷ ss)
    → r.from ≡ s.from
    → covers (r.to + 1) (r ∷ rs) ≡ covers (r.to + 1) (s ∷ ss)
    → s.to ≤ r.to
unfolding covers
to-le b r s rs ss n m f e = ground (arith, covers-below (r.to + 1) (r.to + 2) rs)

tail_same :
    (b x : ℕ) (r s : Range) (rs ss : List Range)
    → IsNormalFrom b (r ∷ rs)
    → IsNormalFrom b (s ∷ ss)
    → r.from ≡ s.from
    → r.to ≡ s.to
    → covers x (r ∷ rs) ≡ covers x (s ∷ ss)
    → covers x rs ≡ covers x ss
unfolding covers
tail_same b x r s rs ss n m f t e =
    ground (arith, covers-below x (r.to + 2) rs, covers-below x (s.to + 2) ss)

same_from :
    (b : ℕ) (rs ss : List Range)
    → IsNormalFrom b rs
    → IsNormalFrom b ss
    → SameNumbers rs ss
    → rs ≡ ss
same_from b [] [] n m e = refl
same_from b [] (s ∷ ss) n m e =
    cc (e s.from, covers-head b s ss m, covers-below s.from (s.from + 1) [] tt (omega arith))
same_from b (r ∷ rs) [] n m e =
    cc (e r.from, covers-head b r rs n, covers-below r.from (r.from + 1) [] tt (omega arith))
same_from b (r ∷ rs) (s ∷ ss) n m e =
    let f : r.from ≡ s.from =
      omega (arith, from-le b r s rs ss n m (e r.from), from-le b s r ss rs m n (sym (e s.from))) in
    let t : r.to ≡ s.to = omega (
      arith,
      to-le b r s rs ss n m f (e (r.to + 1)),
      to-le b s r ss rs m n (sym f) (sym (e (s.to + 1))),
    ) in
    let rest : rs ≡ ss =
      same_from (r.to + 2) rs ss n.2 (rw t m.2) (λ x. tail_same b x r s rs ss n m f t (e x)) in
    cc

-- Two normal lists that cover the same numbers are equal, whatever the order and the overlaps in
-- which the ranges were added.
pub same_numbers : (rs ss : List Range) → IsNormal rs → IsNormal ss → SameNumbers rs ss → rs ≡ ss
same_numbers = same_from 1
