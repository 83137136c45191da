-- ===== src/Runtime/Registry/Calls.antt =====
-- CompletionRegistry over sequences of calls: no outcome is dropped silently.

use jitong_app.Base.{ℕ, ◌+◌, ◌<◌, ◌≡◌, false, Option, List, [], ◌∷◌, Bytes, bytes_eq, arith}
use jitong_app.Runtime.Registry.{
  Outcome, Record, Registry, time_of, complete, consume, evict_expired, reset,
}
use jitong_app.Runtime.Registry.Exact.{Inv, complete-Inv, consume-Inv, evict_expired-Inv}

pub data Call : Type 0 where
  completes : Bytes → Outcome → Bytes → Option ℕ → Call
  consumes : Bytes → Call
  evicts : ℕ → Option ℕ → Call
  resets : Call

unfoldable pub after : Call → Registry → Registry
after (completes id result error clock) reg = (complete id result error clock reg).0
after (consumes id) reg = (consume id reg).0
after (evicts ttl clock) reg = (evict_expired ttl clock reg).0
after resets reg = reset reg

unfoldable pub after_all : List Call → Registry → Registry
after_all [] reg = reg
after_all (c ∷ cs) reg = after_all cs (after c reg)

pub after-Inv : (c : Call) (reg : Registry) → Inv reg → Inv (after c reg)
unfolding after reset
after-Inv (completes id result error clock) reg v = complete-Inv id result error clock reg v
after-Inv (consumes id) reg v = consume-Inv id reg v
after-Inv (evicts ttl clock) reg v = evict_expired-Inv ttl clock reg v
after-Inv resets reg v = record { unique = tt; bounded = omega arith }

-- The call neither consumes the operation, nor comes when its record has expired, nor resets.
abbrev pub Spares : Record → Call → Type 0
Spares r (completes id result error clock) = Unit {0}
Spares r (consumes id) = bytes_eq r.operation_id id ≡ false
Spares r (evicts ttl clock) = time_of clock < r.created_at + ttl
Spares r resets = ⊥

abbrev pub SpareAll : Record → List Call → Type 0
SpareAll r [] = Unit {0}
SpareAll r (c ∷ cs) = Spares r c × SpareAll r cs

pub after_all-Inv : (cs : List Call) (reg : Registry) → Inv reg → Inv (after_all cs reg)
unfolding after_all
after_all-Inv [] reg v = v
after_all-Inv (c ∷ cs) reg v = after_all-Inv cs (after c reg) (after-Inv c reg v)
