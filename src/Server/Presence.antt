-- ===== src/Server/Presence.antt =====
-- im_server/src/session/Presence.h and Presence.cpp. A session is a number, `alive` says of which
-- sessions a weak pointer can still be locked, and `now` is what std::time returns. The map is an
-- association list; its order is not std::map's.
pub mod Ownership
use jitong_app.Base.{
  ℕ, ◌+◌, Bool, true, false, not, ◌&&◌, Option, none, some, List, [], ◌∷◌, ltb, ◌==◌, if◌then◌else◌,
}
use jitong_app.Base.Dict.{find, put, erase, nat_eq}

pub record Entry : Type 0 where
  pub sess : ℕ
  pub last_active : ℕ

abbrev pub Presence : Type 0
Presence = List (ℕ × Entry)

-- weak_ptr::lock
abbrev pub lock : (ℕ → Bool) → ℕ → Option ℕ
lock alive s = if alive s then some s else none

unfoldable pub online : ℕ → ℕ → ℕ → Presence → Presence
online user s now m = put user (record { sess = s; last_active = now }) m

unfoldable pub replace : (ℕ → Bool) → ℕ → ℕ → ℕ → Presence → Presence × Option ℕ
replace alive user s now m =
    let old : Option ℕ = elim (find user m) [ none ↦ none | some e ↦ lock alive e.sess ] in
    (put user (record { sess = s; last_active = now }) m, old)

abbrev pub is_session : ℕ → Option ℕ → Bool
is_session s none = false
is_session s (some x) = x == s

unfoldable pub offline : (ℕ → Bool) → ℕ → ℕ → Presence → Presence
offline alive user s m = elim (find user m) [
  | none ↦ m
  | some e ↦ (if is_session s (lock alive e.sess) then erase user m else m)
]

unfoldable pub get : (ℕ → Bool) → ℕ → Presence → Option ℕ
get alive user m = elim (find user m) [ none ↦ none | some e ↦ lock alive e.sess ]

abbrev pub is_some : Option ℕ → Bool
is_some none = false
is_some (some x) = true

unfoldable pub is_online : (ℕ → Bool) → ℕ → Presence → Bool
unfolding get
is_online alive user m = is_some (get alive user m)

unfoldable pub touch : ℕ → ℕ → Presence → Presence
touch user now m = elim (find user m) [
  | none ↦ m
  | some e ↦ put user (record e { last_active = now }) m
]

-- The loop of scanStale: the map after it, and the stale connections.
unfoldable pub scan_stale : (ℕ → Bool) → ℕ → ℕ → Presence → Presence × List (ℕ × ℕ)
scan_stale alive timeout now [] = ([], [])
scan_stale alive timeout now ((user, e) ∷ m) =
    let rest = scan_stale alive timeout now m in
    if not (alive e.sess)
    then ((user, e) ∷ rest.0, rest.1)
    else if e.last_active == 0
    then ((user, record e { last_active = now }) ∷ rest.0, rest.1)
    else if ltb (e.last_active + timeout) now
    then ((user, e) ∷ rest.0, (user, e.sess) ∷ rest.1)
    else ((user, e) ∷ rest.0, rest.1)
