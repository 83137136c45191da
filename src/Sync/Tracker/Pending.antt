-- ===== src/Sync/Tracker/Pending.antt =====
-- `pendingGaps`: which gaps one pass asks the history service for.
use jitong_app.Base.{
  ℕ, zero, suc, ◌+◌, ◌-◌, max, ◌≡◌, refl, Bool, not, List, [], ◌∷◌, ltb, take, keep, arith,
}
use jitong_app.Sync.Tracker.{Gap, Tracker, gaps, pending_from, pending_gaps}

-- A gap whose retry time has come.
abbrev pub due : ℕ → Gap → Bool
due now g = not (ltb now g.next_retry_at)

pending_from_lem :
    (now limit n k : ℕ) (gs : List Gap)
    → suc k ≡ max 1 (limit - n)
    → pending_from now limit n gs ≡ take (suc k) (keep (due now) gs)
unfolding pending_from
pending_from_lem now limit n k [] e = refl
pending_from_lem now limit n zero (g ∷ gs) e = ground (arith, pending_from_lem now limit n zero gs)
pending_from_lem now limit n (suc k) (g ∷ gs) e =
    ground (arith, pending_from_lem now limit n (suc k) gs, pending_from_lem now limit (n + 1) k gs)

-- One pass takes the first gaps that are due, in order, as many as the limit allows, and one where
-- the limit is 0.
pub pending_gaps_exact :
    (now : ℕ) (t : Tracker)
    → pending_gaps now t ≡ take (max 1 t.config.max_gaps_per_pass) (keep (due now) (gaps t))
unfolding pending_gaps
pending_gaps_exact now t =
    let limit = t.config.max_gaps_per_pass in
    let e : max 1 limit ≡ suc (limit - 1) = omega arith in
    rw e (pending_from_lem now limit 0 (limit - 1) (gaps t) (omega arith))
