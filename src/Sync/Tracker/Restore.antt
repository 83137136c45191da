-- ===== src/Sync/Tracker/Restore.antt =====
-- `restore`: a tracker built again from the stored ranges and gaps.
use jitong_app.Base.{
  ℕ, ◌+◌, ◌≤◌, ◌<◌, max, ◌≡◌, refl, ap, ◌∙◌, ◌||◌, none, some, List, [], ◌∷◌, map, All, arith,
  Option-cases, inl, inr,
}
use jitong_app.Base.Dict.{find, put, find-put, nat_eq}
use jitong_app.Sync.Ranges.{Range, compute_gaps, covers, add_arrived}
use jitong_app.Sync.Ranges.Normal.{IsNormalFrom, IsNormal, add_arrived-IsNormal}
use jitong_app.Sync.Ranges.Coverage.{covers-add_arrived}
use jitong_app.Sync.Ranges.Canonical.{same_numbers}
use jitong_app.Sync.Tracker.{
  Tracker, Gap, RetryInfo, or_no_retry, failed_once, mark_first, mark_gap_attempt_failed,
  with_retry, gaps, restore, restore_range, restore_ranges, restore_gap, restore_gaps,
}
use jitong_app.Sync.Tracker.Refines.{Inv, top-add_arrived}
use jitong_app.Sync.Tracker.Retries.{IsAscending, compute_gaps-IsAscending}

-- The ranges of a normal list all count as valid, and come back as they were.
restore_ranges_lem :
    (b x : ℕ) (rs : List Range) (t : Tracker)
    → 1 ≤ b
    → IsNormalFrom b rs
    → Inv t
    → Inv (restore_ranges rs t)
      × (covers x (restore_ranges rs t).arrived ≡ (covers x rs || covers x t.arrived))
unfolding restore_ranges covers
restore_ranges_lem b x [] t h n v = (v, refl)
restore_ranges_lem b x (r ∷ rs) t h n v =
    let t' : Tracker = record t {
      arrived = add_arrived r.from r.to t.arrived;
      max_seen = max t.max_seen r.to;
    } in
    let v' : Inv t' =
      ground (
        arith,
        add_arrived-IsNormal r.from r.to t.arrived,
        top-add_arrived r.from r.to t.arrived,
      ) in
    ground
      (arith, restore_ranges_lem (r.to + 2) x rs t', covers-add_arrived x r.from r.to t.arrived)

-- Retry data is kept only of gaps that have failed once at least.
abbrev pub IsTried : List (ℕ × RetryInfo) → Type 0
IsTried m = (k : ℕ) (i : RetryInfo) → find k m ≡ some i → 0 < i.attempt

pub IsTried-put :
    (k : ℕ) (i : RetryInfo) (m : List (ℕ × RetryInfo))
    → 0 < i.attempt
    → IsTried m
    → IsTried (put k i m)
IsTried-put k i m h w j x e = ground (arith, find-put k j i m, w j x)

find-restore_gaps :
    (k b : ℕ) (m : List (ℕ × RetryInfo)) (gs : List Range) (t : Tracker)
    → k < b
    → IsAscending b gs
    → find k (restore_gaps (map (with_retry m) gs) t).retries ≡ find k t.retries
unfolding restore_gaps restore_gap with_retry
find-restore_gaps k b m [] t h a = refl
find-restore_gaps k b m (g ∷ gs) t h a =
    let i = or_no_retry (find g.from m) in
    ground (
      arith,
      find-restore_gaps k (g.to + 1) m gs (restore_gap (with_retry m g) t),
      find-put g.from k i t.retries,
    )

abbrev HasNone : List (ℕ × RetryInfo) → List Range → Type 0
HasNone m gs = All (λ (g : Range). find g.from m ≡ none) gs

HasNone-put :
    (k b : ℕ) (i : RetryInfo) (m : List (ℕ × RetryInfo)) (gs : List Range)
    → k < b
    → IsAscending b gs
    → HasNone m gs
    → HasNone (put k i m) gs
HasNone-put k b i m [] h a n = tt
HasNone-put k b i m (g ∷ gs) h a n =
    (ground (arith, find-put k g.from i m), HasNone-put k (g.to + 1) i m gs (omega arith) a.2 n.1)

HasNone-restore_gap :
    (b : ℕ) (m : List (ℕ × RetryInfo)) (g : Range) (gs : List Range) (t : Tracker)
    → g.from < b
    → IsAscending b gs
    → HasNone t.retries gs
    → HasNone (restore_gap (with_retry m g) t).retries gs
unfolding restore_gap with_retry
HasNone-restore_gap b m g gs t h a n =
    let i = or_no_retry (find g.from m) in ground (arith, HasNone-put g.from b i t.retries gs)

-- One gap comes back with the data that it was stored with.
with_retry-restore_gap :
    (m : List (ℕ × RetryInfo)) (g : Range) (t : Tracker)
    → 1 ≤ g.from
    → g.from ≤ g.to
    → IsTried m
    → find g.from t.retries ≡ none
    → with_retry (restore_gap (with_retry m g) t).retries g ≡ with_retry m g
unfolding restore_gap with_retry
with_retry-restore_gap m g t h k w n = elim (Option-cases (find g.from m)) [
  | inl e ↦ rw e (ground arith)
  | inr (i, e) ↦ rw e (ground (arith, w g.from i, find-put g.from g.from i t.retries))
]

with_retry-find :
    (m n : List (ℕ × RetryInfo)) (g : Range)
    → find g.from m ≡ find g.from n
    → with_retry m g ≡ with_retry n g
unfolding with_retry
with_retry-find m n g e = ground (arith, ap or_no_retry e)

with_retry-restore_gaps :
    (b : ℕ) (m : List (ℕ × RetryInfo)) (gs : List Range) (t : Tracker)
    → 1 ≤ b
    → IsAscending b gs
    → IsTried m
    → HasNone t.retries gs
    → map (with_retry (restore_gaps (map (with_retry m) gs) t).retries) gs ≡ map (with_retry m) gs
unfolding restore_gaps
with_retry-restore_gaps b m [] t h a w n = refl
with_retry-restore_gaps b m (g ∷ gs) t h a w n =
    let t' = restore_gap (with_retry m g) t in
    let none_left = HasNone-restore_gap (g.to + 1) m g gs t (omega arith) a.2 n.1 in
    let kept = find-restore_gaps g.from (g.to + 1) m gs t' (omega arith) a.2 in
    cc (
      with_retry-restore_gaps (g.to + 1) m gs t' (omega arith) a.2 w none_left,
      with_retry-find (restore_gaps (map (with_retry m) gs) t').retries t'.retries g kept,
      with_retry-restore_gap m g t (omega arith) a.1 w n.0,
    )

HasNone-empty : (gs : List Range) → HasNone [] gs
unfolding find
HasNone-empty [] = tt
HasNone-empty (g ∷ gs) = (refl, HasNone-empty gs)

arrived-restore_gaps : (gs : List Gap) (t : Tracker) → (restore_gaps gs t).arrived ≡ t.arrived
unfolding restore_gaps restore_gap
arrived-restore_gaps [] t = refl
arrived-restore_gaps (g ∷ gs) t = ground (arith, arrived-restore_gaps gs (restore_gap g t))

retries-restore_ranges : (rs : List Range) (t : Tracker) → (restore_ranges rs t).retries ≡ t.retries
unfolding restore_ranges
retries-restore_ranges [] t = refl
retries-restore_ranges (r ∷ rs) t = ground (arith, retries-restore_ranges rs (restore_range r t))

-- What a restored tracker starts from.
abbrev cleared : Tracker → Tracker
cleared t = record t { arrived = []; retries = []; max_seen = 0 }

arrived-restore_ranges :
    (rs : List Range) (t : Tracker) → IsNormal rs → (restore_ranges rs (cleared t)).arrived ≡ rs
arrived-restore_ranges rs t n =
    let v : Inv (cleared t) = record { normal = tt; seen = refl } in
    let back = λ (x : ℕ). restore_ranges_lem 1 x rs (cleared t) (omega arith) n v in
    same_numbers _ rs (back 0).0.normal n λ x. unfold covers in ground (arith, (back x).1)

-- A tracker that is restored from the ranges and the gaps of another, whatever it held before, has
-- the same arrived ranges and the same gaps with their attempts and retry times, provided that the
-- other satisfies its invariant and has retry data only of gaps that have failed.
pub restore-gaps :
    (t u : Tracker)
    → Inv t
    → IsTried t.retries
    → ((restore t.arrived (gaps t) u).arrived ≡ t.arrived)
      × (gaps (restore t.arrived (gaps t) u) ≡ gaps t)
unfolding restore gaps
restore-gaps t u v w =
    let s = restore_ranges t.arrived (cleared u) in
    let gs = map (with_retry t.retries) (compute_gaps t.arrived) in
    let e : (restore_gaps gs s).arrived ≡ t.arrived =
      arrived-restore_gaps gs s ∙ arrived-restore_ranges t.arrived u v.normal in
    let none_yet : HasNone s.retries (compute_gaps t.arrived) =
      rw (retries-restore_ranges t.arrived (cleared u)) (HasNone-empty (compute_gaps t.arrived)) in
    (
      e,
      rw e (
          with_retry-restore_gaps 1 t.retries (compute_gaps t.arrived) s (omega arith)
            (compute_gaps-IsAscending t.arrived v.normal) w none_yet),
    )

mark_first-IsTried :
    (now : ℕ) (t : Tracker) (gs : List Range)
    → IsTried t.retries
    → IsTried (mark_first gs now t).retries
unfolding mark_first
mark_first-IsTried now t [] w = w
mark_first-IsTried now t (g ∷ gs) w =
    IsTried-put g.from (failed_once t.config now (or_no_retry (find g.from t.retries))) t.retries
      (unfold failed_once in omega arith) w

pub mark_gap_attempt_failed-IsTried :
    (now : ℕ) (t : Tracker) → IsTried t.retries → IsTried (mark_gap_attempt_failed now t).retries
unfolding mark_gap_attempt_failed
mark_gap_attempt_failed-IsTried now t w = mark_first-IsTried now t (compute_gaps t.arrived) w
