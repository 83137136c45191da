-- ===== src/Runtime/Bus/Versions.antt =====
-- InvalidationBus: notifications are merged, and none is lost or told twice.
use jitong_app.Base.{ℕ, max, ◌≡◌, ◌≢◌, refl, false, List, [], ◌∷◌, arith, ltb, if◌then◌else◌}
use jitong_app.Base.Dict.{find-put}
use jitong_app.Runtime.Bus.{
  Domain, same_domain, same_domain_iff, domain_eq, Bus, current_of, consumed_of, publish, consume,
  is_stale,
}

pub current_of-publish :
    (d e : Domain) (v : ℕ) (b : Bus)
    → current_of e (publish d v b).0
      ≡ (if same_domain e d then max v (current_of d b) else current_of e b)
unfolding publish
current_of-publish d e v b = ground (arith, find-put d e v b.current, same_domain_iff e d)

consumed_of-publish :
    (d e : Domain) (v : ℕ) (b : Bus) → consumed_of e (publish d v b).0 ≡ consumed_of e b
unfolding publish consumed_of
consumed_of-publish d e v b = ground arith

-- `is_stale` compares the two versions.
is_stale_lem : (d : Domain) (b : Bus) → is_stale d b ≡ ltb (consumed_of d b) (current_of d b)
unfolding is_stale current_of
is_stale_lem d b = ground arith

consume_lem :
    (d e : Domain) (b : Bus)
    → ((consume d b).1 ≡ (if is_stale d b then current_of d b else 0))
      × (current_of e (consume d b).0 ≡ current_of e b)
      × (consumed_of e (consume d b).0
          ≡ (if same_domain e d then max (current_of d b) (consumed_of d b) else consumed_of e b))
unfolding consume is_stale current_of
consume_lem d e b = ground (arith, same_domain_iff e d, find-put d e (current_of d b) b.consumed)

unfoldable pub publish_all : Domain → List ℕ → Bus → Bus
publish_all d [] b = b
publish_all d (v ∷ vs) b = publish_all d vs (publish d v b).0

abbrev pub largest : ℕ → List ℕ → ℕ
largest n [] = n
largest n (v ∷ vs) = largest (max v n) vs

current_of-publish_all :
    (d e : Domain) (vs : List ℕ) (b : Bus)
    → current_of e (publish_all d vs b)
      ≡ (if same_domain e d then largest (current_of d b) vs else current_of e b)
unfolding publish_all
current_of-publish_all d e [] b = ground (arith, same_domain_iff e d)
current_of-publish_all d e (v ∷ vs) b = ground (
  arith,
  current_of-publish_all d e vs (publish d v b).0,
  current_of-publish d e v b,
  current_of-publish d d v b,
  same_domain_iff d d,
)

consumed_of-publish_all :
    (d e : Domain) (vs : List ℕ) (b : Bus) → consumed_of e (publish_all d vs b) ≡ consumed_of e b
unfolding publish_all
consumed_of-publish_all d e [] b = refl
consumed_of-publish_all d e (v ∷ vs) b =
    ground (arith, consumed_of-publish_all d e vs (publish d v b).0, consumed_of-publish d e v b)

abbrev read_once : Domain → List ℕ → Bus → Bus
read_once d vs b = (consume d (publish_all d vs b)).0

other_domain :
    (d e : Domain) (vs : List ℕ) (b : Bus) → e ≢ d → is_stale e (read_once d vs b) ≡ is_stale e b
other_domain d e vs b h = ground (
  arith,
  is_stale_lem e b,
  is_stale_lem e (read_once d vs b),
  consume_lem d e (publish_all d vs b),
  current_of-publish_all d e vs b,
  consumed_of-publish_all d e vs b,
  same_domain_iff e d,
)

-- After any publications for a domain, an observer reads the largest version of them and of the
-- current one in a single notification, or 0 if that is not newer than what it has read; it then
-- reads 0 and is not stale; and the other domains are as stale as before.
pub publish_all-consume :
    (d e : Domain) (vs : List ℕ) (b : Bus)
    → e ≢ d
    → let newest = largest (current_of d b) vs in
      let r = consume d (publish_all d vs b) in
      (r.1 ≡ (if ltb (consumed_of d b) newest then newest else 0))
      × ((consume d r.0).1 ≡ 0)
      × (is_stale d r.0 ≡ false)
      × (is_stale e r.0 ≡ is_stale e b)
publish_all-consume d e vs b h =
    let b' = publish_all d vs b in
    let same = same_domain_iff d d in
    let facts = consume_lem d d b' in
    let fresh : is_stale d (consume d b').0 ≡ false =
      ground (arith, is_stale_lem d (consume d b').0, facts, same) in
    (
      ground (
        arith,
        facts,
        is_stale_lem d b',
        current_of-publish_all d d vs b,
        consumed_of-publish_all d d vs b,
        same,
      ),
      ground (arith, consume_lem d d (consume d b').0, fresh),
      fresh,
      other_domain d e vs b h,
    )
