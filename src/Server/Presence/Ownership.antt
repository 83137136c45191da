-- ===== src/Server/Presence/Ownership.antt =====
-- Presence: who owns a user's entry after logins and disconnects, and who is stale.
use jitong_app.Base.{
  ℕ, ◌+◌, ◌≡◌, ◌≢◌, refl, Bool, true, not, ◌&&◌, Option, none, some, List, [], ◌∷◌, ltb, ◌==◌,
  if◌then◌else◌, arith, Option-cases, inl, inr,
}
use jitong_app.Base.Dict.{find, find-put, find-erase, HasUniqueKeys, nat_eq}
use jitong_app.Server.Presence.{Presence, online, replace, offline, get, touch, scan_stale}

pub data Event : Type 0 where
  logs_in : (ℕ → Bool) → ℕ → ℕ → ℕ → Event
  comes_online : ℕ → ℕ → ℕ → Event
  goes_off : (ℕ → Bool) → ℕ → ℕ → Event
  sends : ℕ → ℕ → Event
  scans : (ℕ → Bool) → ℕ → ℕ → Event

unfoldable pub step : Event → Presence → Presence
step (logs_in alive user s now) m = (replace alive user s now m).0
step (comes_online user s now) m = online user s now m
step (goes_off alive user s) m = offline alive user s m
step (sends user now) m = touch user now m
step (scans alive timeout now) m = (scan_stale alive timeout now m).0

unfoldable pub run : List Event → Presence → Presence
run [] m = m
run (e ∷ es) m = run es (step e m)

-- Nobody else logs in as the user or is put on line as the user, and the user's session does not go
-- off.
abbrev pub Leaves : ℕ → ℕ → List Event → Type 0
Leaves user s [] = Unit
Leaves user s (logs_in alive u x now ∷ es) = (u ≢ user) × Leaves user s es
Leaves user s (comes_online u x now ∷ es) = (u ≢ user) × Leaves user s es
Leaves user s (goes_off alive u x ∷ es) = ((u ≡ user) → x ≢ s) × Leaves user s es
Leaves user s (sends u now ∷ es) = Leaves user s es
Leaves user s (scans alive timeout now ∷ es) = Leaves user s es

owner : ℕ → Presence → Option ℕ
owner user m = elim (find user m) [ none ↦ none | some e ↦ some e.sess ]

owner-logs_in :
    (alive : ℕ → Bool) (user u x now : ℕ) (m : Presence)
    → u ≢ user
    → owner user (replace alive u x now m).0 ≡ owner user m
unfolding owner replace
owner-logs_in alive user u x now m h =
    ground (arith, find-put u user (record { sess = x; last_active = now }) m)

owner-comes_online :
    (user u x now : ℕ) (m : Presence) → u ≢ user → owner user (online u x now m) ≡ owner user m
unfolding owner online
owner-comes_online user u x now m h =
    ground (arith, find-put u user (record { sess = x; last_active = now }) m)

owner-goes_off :
    (alive : ℕ → Bool) (user s u x : ℕ) (m : Presence)
    → owner user m ≡ some s
    → ((u ≡ user) → x ≢ s)
    → owner user (offline alive u x m) ≡ some s
unfolding owner offline
owner-goes_off alive user s u x m e h = ground (arith, find-erase u user m, h)

owner-sends : (user u now : ℕ) (m : Presence) → owner user (touch u now m) ≡ owner user m
unfolding owner touch
owner-sends user u now m = elim (Option-cases (find u m)) [
  | inl n ↦ rw (n, touch) refl
  | inr (x, n) ↦
      rw (n, touch) (ground (arith, n, find-put u user (record x { last_active = now }) m))
]

owner-scans :
    (alive : ℕ → Bool) (timeout now user : ℕ) (m : Presence)
    → owner user (scan_stale alive timeout now m).0 ≡ owner user m
unfolding owner scan_stale find
owner-scans alive timeout now user [] = refl
owner-scans alive timeout now user ((i, e) ∷ m) =
    ground (arith, owner-scans alive timeout now user m)

owner-run :
    (user s : ℕ) (es : List Event) (m : Presence)
    → owner user m ≡ some s
    → Leaves user s es
    → owner user (run es m) ≡ some s
unfolding run step
owner-run user s [] m e l = e
owner-run user s (logs_in alive u x now ∷ es) m e l =
    owner-run user s es (replace alive u x now m).0
      (ground (arith, owner-logs_in alive user u x now m l.0)) l.1
owner-run user s (comes_online u x now ∷ es) m e l =
    owner-run user s es (online u x now m) (ground (arith, owner-comes_online user u x now m l.0))
      l.1
owner-run user s (goes_off alive u x ∷ es) m e l =
    owner-run user s es (offline alive u x m) (owner-goes_off alive user s u x m e l.0) l.1
owner-run user s (sends u now ∷ es) m e l =
    owner-run user s es (touch u now m) (ground (arith, owner-sends user u now m)) l
owner-run user s (scans alive timeout now ∷ es) m e l =
    owner-run user s es (scan_stale alive timeout now m).0
      (ground (arith, owner-scans alive timeout now user m)) l

-- After a login the user's session is the new one, as long as that session is alive, whatever calls
-- of Presence come next, scans for stale connections included, but another login or entry of that
-- user or the new session's own disconnect: a late disconnect of a session that was replaced does
-- not take the new one off line.
pub login_survives :
    (before alive : ℕ → Bool) (user s now : ℕ) (es : List Event) (m : Presence)
    → alive s ≡ true
    → Leaves user s es
    → get alive user (run es (replace before user s now m).0) ≡ some s
unfolding get owner replace
login_survives before alive user s now es m a l =
    let e : owner user (replace before user s now m).0 ≡ some s =
      ground (arith, find-put user user (record { sess = s; last_active = now }) m) in
    ground (arith, owner-run user s es (replace before user s now m).0 e l)

-- A scan reports exactly the users whose session is alive, was seen, and was active more than
-- `timeout` before `now`; it changes an entry only to give the grace time to an entry that is alive
-- and was never active. No user has two entries.
pub scan_stale_exact :
    (alive : ℕ → Bool) (timeout now user : ℕ) (m : Presence)
    → HasUniqueKeys m
    → let r = scan_stale alive timeout now m in
      (find user r.1 ≡ (elim (find user m) [
        | none ↦ none
        | some e ↦
            (if alive e.sess && (not (e.last_active == 0) && ltb (e.last_active + timeout) now)
              then some e.sess
              else none)
      ]))
      × (find user r.0 ≡ (elim (find user m) [
        | none ↦ none
        | some e ↦
            (if alive e.sess && e.last_active == 0
              then some (record e { last_active = now })
              else some e)
      ]))
unfolding scan_stale find
scan_stale_exact alive timeout now user [] u = (refl, refl)
scan_stale_exact alive timeout now user ((i, e) ∷ m) u =
    let rest = scan_stale_exact alive timeout now user m u.1 in
    let free : (user ≡ i) → find user m ≡ none = λ e. rw e u.0 in
    (ground (arith, rest.0, free, u.0), ground (arith, rest.1, free, u.0))
