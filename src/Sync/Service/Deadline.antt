-- ===== src/Sync/Service/Deadline.antt =====
-- SyncService: the earliest time at which a gap of a conversation may be tried again.
use jitong_app.Base.{
  ℕ, ◌≤◌, ◌<◌, ◌≡◌, ◌⊎◌, inl, refl, Bool, true, false, ◌&&◌, ◌||◌, List, [], ◌∷◌, ltb, leb, ◌==◌,
  if◌then◌else◌, All, arith,
}
use jitong_app.Sync.Tracker.{Gap, gaps}
use jitong_app.Sync.Service.{Service, tracker_for, earliest_of, next_retry_at}

-- Some gap backs off until this time.
abbrev pub has_time : ℕ → List Gap → Bool
has_time at [] = false
has_time at (g ∷ gs) = at == g.next_retry_at || has_time at gs

abbrev pub IsNotAfter : ℕ → Gap → Type 0
IsNotAfter e g = (g.next_retry_at ≡ 0) ⊎ ((0 < e) × (e ≤ g.next_retry_at))

-- What the loop finds, from the value `acc`.
record Found (acc : ℕ) (gs : List Gap) (e : ℕ) : Type 0 where
  low : (acc ≡ 0) ⊎ ((0 < e) × (e ≤ acc))
  all : All (IsNotAfter e) gs
  from : (e ≡ acc) ⊎ (has_time e gs ≡ true)

earliest_of-Found : (acc : ℕ) (gs : List Gap) → Found acc gs (earliest_of acc gs)
unfolding earliest_of
earliest_of-Found acc [] = record { low = ground arith; all = tt; from = inl refl }
earliest_of-Found acc (g ∷ gs) =
    let at = g.next_retry_at in
    let acc' = if ltb 0 at && (acc == 0 || ltb at acc) then at else acc in
    let f = earliest_of-Found acc' gs in
    record {
      low = ground (arith, f.low);
      all = (ground (arith, f.low), f.all);
      from = ground (arith, f.from);
    }

-- `nextRetryAtMs` of a conversation with a positive id gives a time at which one of its gaps
-- becomes due and that is not after the time of any other gap that backs off; it gives 0 only where
-- no gap backs off.
pub next_retry_at_exact :
    (conversation_id : ℕ) (s : Service)
    → 0 < conversation_id
    → let e = (next_retry_at conversation_id s).1 in
      let gs = gaps (tracker_for conversation_id s).1 in
      All (IsNotAfter e) gs × ((e ≡ 0) ⊎ (has_time e gs ≡ true))
unfolding next_retry_at
next_retry_at_exact conversation_id s h =
    let f = earliest_of-Found 0 (gaps (tracker_for conversation_id s).1) in
    let big : leb conversation_id 0 ≡ false = ground arith in rw big (f.all, f.from)
