-- ===== src/Sync/Service/Shadow.antt =====
-- SyncService: the table of gaps follows the tracker.
use jitong_app.Base.{
  ℕ, ◌≡◌, ◌≢◌, inl, inr, refl, Bool, true, false, ◌&&◌, ◌||◌, Option, none, some, List, [], ◌∷◌,
  ltb, leb, if◌then◌else◌, arith, Option-cases, ◌∙◌,
}
use jitong_app.Base.Dict.{find, find-put, nat_eq}
use jitong_app.Sync.Tracker.{
  Gap, Tracker, fill_gap, mark_gap_attempt_failed, gaps, has_gaps, pending_gaps,
}
use jitong_app.Sync.Service.{
  Repository, Service, first_tracker, tracker_for, replace_gaps, update, observed, observe, fill,
  mark_gap_failed, pending, contiguous_seq, max_seen_seq, any_gaps, next_retry_at, earliest_of,
}
use jitong_app.Sync.Ranges.{contiguous}

pub data Call : Type 0 where
  observes : ℕ → ℕ → Call
  fills : ℕ → ℕ → ℕ → Call
  fails : ℕ → ℕ → Call
  asks : ℕ → ℕ → Call
  asks_contiguous : ℕ → Call
  asks_max_seen : ℕ → Call
  asks_any : ℕ → Call
  asks_retry : ℕ → Call

unfoldable pub step : Call → Service → Service
step (observes c seq) s = (observe c seq s).0
step (fills c from to) s = (fill c from to s).0
step (fails c now) s = (mark_gap_failed c now s).0
step (asks c now) s = (pending c now s).0
step (asks_contiguous c) s = (contiguous_seq c s).0
step (asks_max_seen c) s = (max_seen_seq c s).0
step (asks_any c) s = (any_gaps c s).0
step (asks_retry c) s = (next_retry_at c s).0

unfoldable pub run : List Call → Service → Service
run [] s = s
run (k ∷ ks) s = run ks (step k s)

abbrev pub conversation_of : Call → ℕ
conversation_of (observes c seq) = c
conversation_of (fills c from to) = c
conversation_of (fails c now) = c
conversation_of (asks c now) = c
conversation_of (asks_contiguous c) = c
conversation_of (asks_max_seen c) = c
conversation_of (asks_any c) = c
conversation_of (asks_retry c) = c

-- The calls that change the tracker, with arguments that the service takes.
abbrev pub is_update : Call → Bool
is_update (observes c seq) = ltb 0 c && ltb 0 seq
is_update (fills c from to) = ltb 0 c && (ltb 0 from && leb from to)
is_update (fails c now) = ltb 0 c
is_update _ = false

abbrev pub AreOthers : ℕ → List Call → Type 0
AreOthers c [] = Unit
AreOthers c (k ∷ ks) = (conversation_of k ≢ c) × AreOthers c ks

unfoldable pub table_of : Option Repository → List (ℕ × List Gap)
table_of none = []
table_of (some repo) = repo.sync_gaps

-- The service holds this tracker, and the table holds its gaps.
pub record Shadowed (c : ℕ) (t : Tracker) (s : Service) : Type 0 where
  pub tracker : find c s.trackers ≡ some t
  pub rows : find c (table_of s.repo) ≡ some (gaps t)

tracker_for-other :
    (c c' : ℕ) (t : Tracker) (s : Service)
    → c' ≢ c
    → Shadowed c t s
    → Shadowed c t (tracker_for c' s).0
unfolding tracker_for
tracker_for-other c c' t s h k = elim (Option-cases (find c' s.trackers)) [
  | inl n ↦
      rw (n, tracker_for)
        (record {
          tracker =
              ground (
                arith,
                h,
                k.tracker,
                find-put c' c (first_tracker s.owner_id c' s.repo) s.trackers,
              );
          rows = k.rows;
        })
  | inr (x, n) ↦ rw (n, tracker_for) k
]

rows-replace_gaps :
    (c c' : ℕ) (rows : List Gap) (repo : Option Repository)
    → c' ≢ c
    → find c (table_of (replace_gaps c' rows repo)) ≡ find c (table_of repo)
unfolding table_of
rows-replace_gaps c c' rows none h = refl
rows-replace_gaps c c' rows (some repo) h = ground (arith, h, find-put c' c rows repo.sync_gaps)

rows-replaced :
    (c : ℕ) (rows : List Gap) (o : Option Repository) (repo : Repository)
    → o ≡ some repo
    → repo.replaces ≡ true
    → find c (table_of (replace_gaps c rows o)) ≡ some rows
unfolding table_of
rows-replaced c rows none repo e h = absurd (ground arith)
rows-replaced c rows (some r) repo e h = ground (arith, e, h, find-put c c rows r.sync_gaps)

update-other :
    (c c' : ℕ) (t : Tracker) (change : Tracker → Tracker) (s : Service)
    → c' ≢ c
    → Shadowed c t s
    → Shadowed c t (update c' change s)
unfolding update
update-other c c' t change s h k =
    let r = tracker_for c' s in
    let o = tracker_for-other c c' t s h k in
    record {
      tracker = ground (arith, h, o.tracker, find-put c' c (change r.1) r.0.trackers);
      rows = rows-replace_gaps c c' (gaps (change r.1)) s.repo h ∙ k.rows;
    }

update_self :
    (c : ℕ) (change : Tracker → Tracker) (s : Service) (repo : Repository)
    → s.repo ≡ some repo
    → repo.replaces ≡ true
    → Shadowed c (change (tracker_for c s).1) (update c change s)
unfolding update
update_self c change s repo e h =
    let r = tracker_for c s in
    let t = change r.1 in
    record {
      tracker = ground (arith, find-put c c t r.0.trackers);
      rows = rows-replaced c (gaps t) s.repo repo e h;
    }

-- The two branches of a guarded call.
pick :
    {A : Type 0} (c : ℕ) (t : Tracker) (b : Bool) (x y : Service) (u v : A)
    → (b ≡ true → Shadowed c t x)
    → (b ≡ false → Shadowed c t y)
    → Shadowed c t (if◌then◌else◌ {A = Service × A} b (x, u) (y, v)).0
pick c t true x y u v f g = f refl
pick c t false x y u v f g = g refl

step-other :
    (c : ℕ) (t : Tracker) (k : Call) (s : Service)
    → conversation_of k ≢ c
    → Shadowed c t s
    → Shadowed c t (step k s)
unfolding step observe fill mark_gap_failed pending contiguous_seq max_seen_seq any_gaps
    next_retry_at
step-other c t (observes c' seq) s h k =
    pick c t (leb c' 0 || leb seq 0) s (update c' (observed seq) s) false true (λ e. k)
      (λ e. update-other c c' t (observed seq) s h k)
step-other c t (fills c' from to) s h k =
    pick c t (leb c' 0 || (leb from 0 || ltb to from)) s (update c' (fill_gap from to) s) false true
      (λ e. k) (λ e. update-other c c' t (fill_gap from to) s h k)
step-other c t (fails c' now) s h k =
    pick c t (leb c' 0) s (update c' (mark_gap_attempt_failed now) s) false true (λ e. k)
      (λ e. update-other c c' t (mark_gap_attempt_failed now) s h k)
step-other c t (asks c' now) s h k =
    let r = tracker_for c' s in
    pick c t (leb c' 0) s r.0 [] (pending_gaps now r.1) (λ e. k)
      (λ e. tracker_for-other c c' t s h k)
step-other c t (asks_contiguous c') s h k =
    let r = tracker_for c' s in
    pick c t (leb c' 0) s r.0 0 (contiguous r.1.arrived) (λ e. k)
      (λ e. tracker_for-other c c' t s h k)
step-other c t (asks_max_seen c') s h k =
    let r = tracker_for c' s in
    pick c t (leb c' 0) s r.0 0 r.1.max_seen (λ e. k) (λ e. tracker_for-other c c' t s h k)
step-other c t (asks_any c') s h k =
    let r = tracker_for c' s in
    pick c t (leb c' 0) s r.0 false (has_gaps r.1) (λ e. k) (λ e. tracker_for-other c c' t s h k)
step-other c t (asks_retry c') s h k =
    let r = tracker_for c' s in
    pick c t (leb c' 0) s r.0 0 (earliest_of 0 (gaps r.1)) (λ e. k)
      (λ e. tracker_for-other c c' t s h k)

run-others :
    (c : ℕ) (t : Tracker) (ks : List Call) (s : Service)
    → AreOthers c ks
    → Shadowed c t s
    → Shadowed c t (run ks s)
unfolding run
run-others c t [] s o k = k
run-others c t (x ∷ ks) s o k = run-others c t ks (step x s) o.1 (step-other c t x s o.0 k)

-- What an update makes of the tracker.
abbrev pub changed : Call → Tracker → Tracker
changed (observes c seq) t = observed seq t
changed (fills c from to) t = fill_gap from to t
changed (fails c now) t = mark_gap_attempt_failed now t
changed _ t = t

step_self :
    (k : Call) (s : Service) (repo : Repository)
    → is_update k ≡ true
    → s.repo ≡ some repo
    → repo.replaces ≡ true
    → let c = conversation_of k in Shadowed c (changed k (tracker_for c s).1) (step k s)
unfolding step observe fill mark_gap_failed
step_self (observes c seq) s repo u e h =
    pick c (observed seq (tracker_for c s).1) (leb c 0 || leb seq 0) s (update c (observed seq) s)
      false true (λ x. absurd (ground (arith, u, x))) (λ x. update_self c (observed seq) s repo e h)
step_self (fills c from to) s repo u e h =
    pick c (fill_gap from to (tracker_for c s).1) (leb c 0 || (leb from 0 || ltb to from)) s
      (update c (fill_gap from to) s) false true (λ x. absurd (ground (arith, u, x)))
      (λ x. update_self c (fill_gap from to) s repo e h)
step_self (fails c now) s repo u e h =
    pick c (mark_gap_attempt_failed now (tracker_for c s).1) (leb c 0) s
      (update c (mark_gap_attempt_failed now) s) false true (λ x. absurd (ground (arith, u, x)))
      (λ x. update_self c (mark_gap_attempt_failed now) s repo e h)
step_self _ s repo u e h = absurd (ground (arith, u))

-- After a valid update of a conversation, by a repository whose replacement succeeds, and any later
-- calls of the service, queries included, for other conversations, the service holds the tracker that the update gave and the table of
-- gaps holds exactly this tracker's gaps, with their retry data.
pub update-Shadowed :
    (k : Call) (ks : List Call) (s : Service) (repo : Repository)
    → is_update k ≡ true
    → s.repo ≡ some repo
    → repo.replaces ≡ true
    → AreOthers (conversation_of k) ks
    → Shadowed
        (conversation_of k)
        (changed k (tracker_for (conversation_of k) s).1)
        (run ks (step k s))
update-Shadowed k ks s repo u e h o =
    let c = conversation_of k in
    run-others c (changed k (tracker_for c s).1) ks (step k s) o (step_self k s repo u e h)
