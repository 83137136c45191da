-- ===== src/Services/Suggestions/Links.antt =====
-- AiSuggestionService: the two maps name the same requests, whatever the operation.
use jitong_app.Base.{
  ℕ, ◌+◌, ◌^◌, ◌<◌, ◌≤◌, ◌≡◌, ap, false, Option, none, some, List, [], ◌∷◌, Bytes, bytes_eq, leb,
  ==_iff, bytes_eq_iff, All, arith, Bool-cases, inl, inr, drop,
}
use jitong_app.Base.Dict.{
  find, erase, HasUniqueKeys, find-put, find-erase, put-HasUniqueKeys, erase-HasUniqueKeys,
  bytes_Eq, nat_eq,
}
use jitong_app.Account.TokenManager.Decimal.{to_string_injective}
use jitong_app.Services.Suggestions.{
  AiRequestContext, InFlight, Service, request_id_of, flight_of, begin, settle, expire,
}

abbrev pub conversation : Option InFlight → Option ℕ
conversation none = none
conversation (some f) = some f.conversation_id

-- A request in flight is the one of its conversation and of this generation, and the request that
-- a conversation names is in flight, for that conversation.
pub record Linked (s : Service) : Type 0 where
  pub unique : HasUniqueKeys s.in_flight
  pub id_of : (id : Bytes) (f : InFlight) → find id s.in_flight ≡ some f → f.request_id ≡ id
  pub current :
      (id : Bytes) (f : InFlight) → find id s.in_flight ≡ some f → f.generation ≡ s.generation
  pub forward :
      (id : Bytes) (f : InFlight)
      → find id s.in_flight ≡ some f
      → find f.conversation_id s.by_conv ≡ some id
  pub back :
      (c : ℕ) (id : Bytes)
      → find c s.by_conv ≡ some id
      → conversation (find id s.in_flight) ≡ some c
  -- No later request is there.
  pub ahead : (k : ℕ) → s.seq ≤ k → k < 2 ^ 64 → find (request_id_of k) s.in_flight ≡ none

pub request_id_of_injective :
    (m n : ℕ) → m < 2 ^ 64 → n < 2 ^ 64 → request_id_of m ≡ request_id_of n → m ≡ n
unfolding request_id_of
request_id_of_injective m n h k e =
    to_string_injective m n (omega (arith, h)) (omega (arith, k)) (ap (drop 3) e)

find-erase-other :
    (id j : Bytes) (f : InFlight) (m : List (Bytes × InFlight))
    → find j (erase id m) ≡ some f
    → (find j m ≡ some f) × (bytes_eq j id ≡ false)
find-erase-other id j f m e = ground (arith, e, find-erase id j m)

pub settle-Linked :
    (id : Bytes) (f : InFlight) (s : Service)
    → find id s.in_flight ≡ some f
    → Linked s
    → Linked (settle id f s)
settle-Linked id f s h l = record {
  unique = erase-HasUniqueKeys id s.in_flight l.unique;
  id_of = λ j g e. l.id_of j g (find-erase-other id j g s.in_flight e).0;
  current = λ j g e. l.current j g (find-erase-other id j g s.in_flight e).0;
  forward = λ j g e.
      let o = find-erase-other id j g s.in_flight e in
      ground (
        arith,
        o,
        l.forward j g o.0,
        l.forward id f h,
        find-erase f.conversation_id g.conversation_id s.by_conv,
        bytes_eq_iff j id,
        ==_iff g.conversation_id f.conversation_id,
      );
  back = λ c j e. ground (
    arith,
    e,
    h,
    l.back c j,
    find-erase f.conversation_id c s.by_conv,
    find-erase id j s.in_flight,
    bytes_eq_iff j id,
    ==_iff c f.conversation_id,
  );
  ahead = λ k a b. ground (arith, l.ahead k a b, find-erase id (request_id_of k) s.in_flight);
}

pub begin-Linked :
    (x : AiRequestContext) (now : ℕ) (s : Service)
    → s.seq + 1 < 2 ^ 64
    → find x.conversation_id s.by_conv ≡ none
    → Linked s
    → Linked (begin x now s).0
begin-Linked x now s small v l =
    let id = request_id_of s.seq in
    let u = l.ahead s.seq (omega arith) (omega (arith, small)) in
    record {
      unique = put-HasUniqueKeys id (flight_of x now s) s.in_flight l.unique;
      id_of = λ j g e.
          ground (
            arith,
            e,
            find-put id j (flight_of x now s) s.in_flight,
            l.id_of j g,
            bytes_eq_iff j id,
          );
      current =
          λ j g e. ground (arith, e, find-put id j (flight_of x now s) s.in_flight, l.current j g);
      forward = λ j g e. ground (
        arith,
        e,
        v,
        find-put id j (flight_of x now s) s.in_flight,
        l.forward j g,
        bytes_eq_iff j id,
        find-put x.conversation_id g.conversation_id id s.by_conv,
        ==_iff g.conversation_id x.conversation_id,
      );
      back = λ c j e. ground (
        arith,
        e,
        u,
        find-put id j (flight_of x now s) s.in_flight,
        l.back c j,
        bytes_eq_iff j id,
        find-put x.conversation_id c id s.by_conv,
        ==_iff c x.conversation_id,
      );
      ahead = λ k a b.
          let more : s.seq + 1 ≤ k = ground (arith, small, a) in
          let other = request_id_of_injective k s.seq b (omega (arith, small)) in
          ground (
            arith,
            more,
            other,
            l.ahead k,
            b,
            find-put id (request_id_of k) (flight_of x now s) s.in_flight,
            bytes_eq_iff (request_id_of k) id,
          );
    }

-- An entry of a map is what a search for its key finds.
abbrev pub Found : List (Bytes × InFlight) → List (Bytes × InFlight) → Type 0
Found m entries = All (λ (e : Bytes × InFlight). find e.0 m ≡ some e.1) entries

Found-cons :
    (j : Bytes) (w : InFlight) (m entries : List (Bytes × InFlight))
    → find j m ≡ none
    → Found m entries
    → Found ((j, w) ∷ m) entries
unfolding find
Found-cons j w m [] n h = tt
Found-cons j w m ((i, v) ∷ entries) n h =
    (ground (arith, n, h.0, bytes_eq_iff i j), Found-cons j w m entries n h.1)

pub Found-self : (m : List (Bytes × InFlight)) → HasUniqueKeys m → Found m m
unfolding find
Found-self [] u = tt
Found-self ((j, w) ∷ m) u =
    (ground (arith, bytes_eq_iff j j), Found-cons j w m m u.0 (Found-self m u.1))

pub Found-erase :
    (id : Bytes) (m entries : List (Bytes × InFlight))
    → find id entries ≡ none
    → Found m entries
    → Found (erase id m) entries
unfolding find
Found-erase id m [] n h = tt
Found-erase id m ((i, v) ∷ entries) n h = (
  ground (arith, n, h.0, find-erase id i m, bytes_eq_iff i id, bytes_eq_iff id i),
  Found-erase id m entries (ground (arith, n)) h.1,
)

pub expire-Linked :
    (now : ℕ) (entries : List (Bytes × InFlight)) (s : Service)
    → HasUniqueKeys entries
    → Found s.in_flight entries
    → Linked s
    → Linked (expire now entries s).0
unfolding expire
expire-Linked now [] s u h l = l
expire-Linked now ((id, f) ∷ rest) s u h l = elim (Bool-cases (leb f.deadline_ms now)) [
  | inl due ↦ rw due (
      expire-Linked now rest (settle id f s) u.1 (Found-erase id s.in_flight rest u.0 h.1)
        (settle-Linked id f s h.0 l))
  | inr due ↦ rw due (expire-Linked now rest s u.1 h.1 l)
]
