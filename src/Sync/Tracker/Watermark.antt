-- ===== src/Sync/Tracker/Watermark.antt =====
-- The watermark of SyncTracker: what moves it.
use jitong_app.Base.{ℕ, ◌+◌, ◌≤◌, min, max, ◌≡◌, ◌≢◌, true, List, [], ◌∷◌, ltb, ◌==◌, arith}
use jitong_app.Sync.Ranges.{Range, absorb, insert_range, add_arrived, contiguous, covers}
use jitong_app.Sync.Ranges.Normal.{IsNormalFrom, IsNormal}
use jitong_app.Sync.Ranges.Coverage.{contiguous_exact}
use jitong_app.Sync.Tracker.{Tracker, observe_seq}
use jitong_app.Sync.Tracker.Refines.{Inv, Report, tell, IsPositive, tell-Inv, covers-tell}

contiguous-absorb :
    (b f t : ℕ) (rs : List Range)
    → IsNormalFrom b rs
    → (f ≡ 1 → t ≤ contiguous (absorb f t rs))
      × (f ≢ 1 → contiguous (absorb f t rs) ≡ 0)
      × (t + 2 ≤ b → f ≡ 1 → contiguous (absorb f t rs) ≡ t)
unfolding absorb contiguous
contiguous-absorb b f t [] n = ground arith
contiguous-absorb b f t (r ∷ rs) n =
    ground (arith, contiguous-absorb (r.to + 2) f (max t r.to) rs n.2)

contiguous-insert_range :
    (seq : ℕ) (rs : List Range)
    → 1 ≤ seq
    → IsNormal rs
    → ltb (contiguous rs) (contiguous (insert_range seq seq rs)) ≡ (seq == contiguous rs + 1)
unfolding insert_range contiguous
contiguous-insert_range seq [] h n = ground arith
contiguous-insert_range seq (r ∷ rs) h n =
    ground (arith, contiguous-absorb (r.to + 2) (min r.from seq) (max r.to seq) rs n.2)

-- `observeSeq` reports that the watermark has moved exactly if the number is the one that follows
-- the watermark, provided that the tracker satisfies its invariant.
pub observe_seq_advances :
    (seq : ℕ) (t : Tracker) → Inv t → (observe_seq seq t).1 ≡ (seq == contiguous t.arrived + 1)
unfolding observe_seq add_arrived
observe_seq_advances seq t v = ground (arith, contiguous-insert_range seq t.arrived)

covered_up_to :
    (n : ℕ) (rs : List Range)
    → IsNormal rs
    → ((x : ℕ) → 1 ≤ x → x ≤ n → covers x rs ≡ true)
    → n ≤ contiguous rs
covered_up_to n rs v h = ground (arith, (contiguous_exact rs v).1, h (contiguous rs + 1))

-- No report moves the watermark back, if it begins at 1 or above and the tracker satisfies its
-- invariant.
pub contiguous-tell :
    (r : Report) (t : Tracker)
    → IsPositive (r ∷ [])
    → Inv t
    → contiguous t.arrived ≤ contiguous (tell r t).arrived
contiguous-tell r t p v =
    covered_up_to (contiguous t.arrived) (tell r t).arrived (tell-Inv r t p v).normal
      λ x h k. ground (arith, covers-tell x r t v, (contiguous_exact t.arrived v.normal).0 x)
