-- ===== src/Sync/Tracker/Refines.antt =====
-- SyncTracker against its abstract state: the set of the numbers that have arrived.
use jitong_app.Base.{
  ℕ, ◌+◌, ◌≤◌, min, max, ◌≡◌, refl, sym, ap, ◌∙◌, Bool, false, not, ◌&&◌, ◌||◌, List, [], ◌∷◌, ltb,
  arith,
}
use jitong_app.Sync.Ranges.{Range, absorb, insert_range, add_arrived, compute_gaps, covers}
use jitong_app.Sync.Ranges.Normal.{IsNormalFrom, IsNormal, add_arrived-IsNormal}
use jitong_app.Sync.Ranges.Coverage.{
  in_interval, top_from, top, top_from-le, covers-add_arrived, covers-compute_gaps,
}
use jitong_app.Sync.Ranges.Canonical.{same_numbers}
use jitong_app.Sync.Tracker.{Config, Tracker, new, observe_seq, fill_gap}

pub record Inv (t : Tracker) : Type 0 where
  pub normal : IsNormal t.arrived
  pub seen : t.max_seen ≡ top t.arrived

-- Where the list is empty the top is the number given, else it does not depend on it.
top_from_shift : (u v : ℕ) (rs : List Range) → u ≤ v → max v (top_from v rs) ≡ max v (top_from u rs)
top_from_shift u v [] h = omega arith
top_from_shift u v (r ∷ rs) h = refl

top_from-absorb :
    (u b f t : ℕ) (rs : List Range)
    → IsNormalFrom b rs
    → top_from u (absorb f t rs) ≡ max t (top_from t rs)
unfolding absorb
top_from-absorb u b f t [] n = omega arith
top_from-absorb u b f t (r ∷ rs) n = ground (
  arith,
  top_from-absorb u (r.to + 2) f (max t r.to) rs,
  top_from-le r.to rs,
  top_from_shift r.to (max t r.to) rs,
)

top_from-insert_range :
    (u b f t : ℕ) (rs : List Range)
    → f ≤ t
    → u ≤ t
    → IsNormalFrom b rs
    → top_from u (insert_range f t rs) ≡ max t (top_from u rs)
unfolding insert_range
top_from-insert_range u b f t [] h k n = omega arith
top_from-insert_range u b f t (r ∷ rs) h k n = ground (
  arith,
  top_from-insert_range r.to (r.to + 2) f t rs,
  top_from-absorb u (r.to + 2) (min r.from f) (max r.to t) rs,
  top_from-le r.to rs,
  top_from_shift r.to (max r.to t) rs,
)

pub top-add_arrived :
    (f t : ℕ) (rs : List Range) → f ≤ t → IsNormal rs → top (add_arrived f t rs) ≡ max t (top rs)
unfolding add_arrived
top-add_arrived f t rs h n = ground (arith, top_from-insert_range 0 1 f t rs)

new-Inv : (c : Config) → Inv (new c)
unfolding new
new-Inv c = record { normal = tt; seen = refl }

pub observe_seq-Inv : (seq : ℕ) (t : Tracker) → Inv t → Inv (observe_seq seq t).0
unfolding observe_seq
observe_seq-Inv seq t v =
    ground (arith, add_arrived-IsNormal seq seq t.arrived, top-add_arrived seq seq t.arrived)

pub fill_gap-Inv : (from to : ℕ) (t : Tracker) → 1 ≤ from → Inv t → Inv (fill_gap from to t)
unfolding fill_gap
fill_gap-Inv from to t h v =
    ground (arith, add_arrived-IsNormal from to t.arrived, top-add_arrived from to t.arrived)

-- What is told to a tracker: one number, or a range that the history service has returned.
pub data Report : Type 0 where
  observed : ℕ → Report
  filled : ℕ → ℕ → Report

unfoldable pub tell : Report → Tracker → Tracker
tell (observed seq) t = (observe_seq seq t).0
tell (filled from to) t = fill_gap from to t

unfoldable pub tell_all : List Report → Tracker → Tracker
tell_all [] t = t
tell_all (r ∷ rs) t = tell_all rs (tell r t)

-- SyncService lets no range through that begins below 1.
abbrev pub IsPositive : List Report → Type 0
IsPositive [] = Unit {0}
IsPositive (observed seq ∷ rs) = IsPositive rs
IsPositive (filled from to ∷ rs) = (1 ≤ from) × IsPositive rs

-- Does a report name the number `x`?
abbrev pub names : ℕ → Report → Bool
names x (observed seq) = ltb 0 seq && in_interval seq seq x
names x (filled from to) = in_interval from to x

abbrev pub names_any : ℕ → List Report → Bool
names_any x [] = false
names_any x (r ∷ rs) = names x r || names_any x rs

pub tell-Inv : (r : Report) (t : Tracker) → IsPositive (r ∷ []) → Inv t → Inv (tell r t)
unfolding tell
tell-Inv (observed seq) t p v = observe_seq-Inv seq t v
tell-Inv (filled from to) t p v = fill_gap-Inv from to t p.0 v

pub covers-tell :
    (x : ℕ) (r : Report) (t : Tracker)
    → Inv t
    → covers x (tell r t).arrived ≡ (names x r || covers x t.arrived)
unfolding tell observe_seq fill_gap
covers-tell x (observed seq) t v = ground (arith, covers-add_arrived x seq seq t.arrived)
covers-tell x (filled from to) t v = ground (arith, covers-add_arrived x from to t.arrived)

pub tell_all-Inv : (rs : List Report) (t : Tracker) → IsPositive rs → Inv t → Inv (tell_all rs t)
unfolding tell_all
tell_all-Inv [] t p v = v
tell_all-Inv (observed seq ∷ rs) t p v =
    tell_all-Inv rs (tell (observed seq) t) p (tell-Inv (observed seq) t tt v)
tell_all-Inv (filled from to ∷ rs) t p v =
    tell_all-Inv rs (tell (filled from to) t) p.1 (tell-Inv (filled from to) t (p.0, tt) v)

covers-tell_all :
    (x : ℕ) (rs : List Report) (t : Tracker)
    → IsPositive rs
    → Inv t
    → covers x (tell_all rs t).arrived ≡ (names_any x rs || covers x t.arrived)
unfolding tell_all
covers-tell_all x [] t p v = refl
covers-tell_all x (observed seq ∷ rs) t p v = ground (
  arith,
  covers-tell_all x rs (tell (observed seq) t) p (tell-Inv (observed seq) t tt v),
  covers-tell x (observed seq) t v,
)
covers-tell_all x (filled from to ∷ rs) t p v = ground (
  arith,
  covers-tell_all x rs (tell (filled from to) t) p.1 (tell-Inv (filled from to) t (p.0, tt) v),
  covers-tell x (filled from to) t v,
)

-- After any reports that begin at 1 or above, told to a new tracker: the arrived ranges are normal
-- and the largest number seen is their end; a number has arrived exactly if a report names it; it
-- lies in a gap exactly if it is at least 1, at most the largest number seen, and no report names it.
pub tell_all_exact :
    (c : Config) (rs : List Report)
    → IsPositive rs
    → let t = tell_all rs (new c) in
      Inv t
      × ((x : ℕ) → covers x t.arrived ≡ names_any x rs)
      × ((x : ℕ)
          → covers x (compute_gaps t.arrived)
            ≡ (in_interval 1 t.max_seen x && not (names_any x rs)))
unfolding new covers
tell_all_exact c rs p =
    let t = tell_all rs (new c) in
    let v : Inv t = tell_all-Inv rs (new c) p (new-Inv c) in
    let reached = λ (x : ℕ). covers-tell_all x rs (new c) p (new-Inv c) in
    (
      v,
      λ x. ground (arith, reached x),
      λ x. ground (arith, reached x, covers-compute_gaps x t.arrived v.normal),
    )

-- Two sequences of reports that begin at 1 or above and name the same numbers leave two new
-- trackers with the same ranges and the same largest number seen, so with the same watermark and
-- the same gaps: order, repetition and overlap of the reports do not matter.
pub tell_all_order :
    (c : Config) (rs ss : List Report)
    → IsPositive rs
    → IsPositive ss
    → ((x : ℕ) → names_any x rs ≡ names_any x ss)
    → ((tell_all rs (new c)).arrived ≡ (tell_all ss (new c)).arrived)
      × ((tell_all rs (new c)).max_seen ≡ (tell_all ss (new c)).max_seen)
tell_all_order c rs ss p q same =
    let (v, f, _) = tell_all_exact c rs p in
    let (w, g, _) = tell_all_exact c ss q in
    let e : (tell_all rs (new c)).arrived ≡ (tell_all ss (new c)).arrived =
      same_numbers _ _ v.normal w.normal (λ x. f x ∙ same x ∙ sym (g x)) in
    (e, v.seen ∙ ap top e ∙ sym w.seen)
