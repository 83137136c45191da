-- ===== src/Runtime/Bus.antt =====
-- client_core/include/client_core/runtime/InvalidationBus.h. Versions are natural numbers: a negative
-- one is refused by `publish` as 0 is.
pub mod Versions
use mathlib.Core.Path.{◌≡◌, refl}
use mathlib.Core.Logic.{◌↔◌}
use jitong_app.Base.{
  ℕ, Bool, true, false, Option, none, some, List, [], ◌∷◌, arith, ltb, leb, if◌then◌else◌,
}
use jitong_app.Base.Dict.{Eq, find, put}

pub data Domain : Type 0 where
  conversations messages friends transfers account : Domain

abbrev pub same_domain : Domain → Domain → Bool
same_domain conversations conversations = true
same_domain messages messages = true
same_domain friends friends = true
same_domain transfers transfers = true
same_domain account account = true
same_domain _ _ = false

pub same_domain_iff : (a b : Domain) → (same_domain a b ≡ true) ↔ (a ≡ b)
same_domain_iff conversations b = ground arith
same_domain_iff _ b = ground arith

instance abbrev pub domain_eq : Eq Domain
domain_eq = record { beq = same_domain; beq_iff = same_domain_iff }

pub record Bus : Type 0 where
  pub current : List (Domain × ℕ)
  pub consumed : List (Domain × ℕ)

-- A version that has not been set counts as 0.
abbrev pub or_zero : Option ℕ → ℕ
or_zero none = 0
or_zero (some v) = v

unfoldable pub current_of : Domain → Bus → ℕ
current_of d b = or_zero (find d b.current)

unfoldable pub consumed_of : Domain → Bus → ℕ
consumed_of d b = or_zero (find d b.consumed)

unfoldable pub publish : Domain → ℕ → Bus → Bus × Bool
unfolding current_of
publish d version b =
    if leb version (current_of d b)
    then (b, false)
    else (record b { current = put d version b.current }, true)

unfoldable pub consume : Domain → Bus → Bus × ℕ
unfolding consumed_of
consume d b = elim (find d b.current) [
  | none ↦ (b, 0)
  | some v ↦
      if leb v (consumed_of d b) then (b, 0) else (record b { consumed = put d v b.consumed }, v)
]

unfoldable pub is_stale : Domain → Bus → Bool
unfolding consumed_of
is_stale d b = elim (find d b.current) [ none ↦ false | some v ↦ ltb (consumed_of d b) v ]

unfoldable pub reset : Bus → Bus
reset b = record { current = []; consumed = [] }
