-- ===== src/Runtime/Tests.antt =====
-- The theorems about the runtime components at concrete inputs.
use jitong_app.Base.{
  ◌<◌, ◌≡◌, ◌↔◌, ◌⊎◌, refl, true, false, none, some, [], ◌∷◌, codes, ltb, if◌then◌else◌, arith,
}
use jitong_app.Base.Dict.{find, put}
use jitong_app.Runtime.Registry.{
  ok, failed, Record, Registry, complete, peek, find_record, insert_record, make_room,
}
use jitong_app.Runtime.Registry.Exact.{record_of, complete_once, complete_full}
use jitong_app.Runtime.Bus.{
  messages, friends, Bus, current_of, consumed_of, publish, consume, is_stale, domain_eq,
}
use jitong_app.Runtime.Bus.Versions.{publish_all, largest, publish_all-consume}
use jitong_app.Runtime.Recovery.{
  CutoverEvidence, missing, no_write, dirty, legacy, prepared, use_native, use_legacy,
  resolve_recovery, Agree, resolve_recovery-native, resolve_recovery-legacy,
}

abbrev sent : Record
sent = record_of (codes "op-1") ok [] (some 10)

abbrev one_sent : Registry
one_sent = record { capacity = 1; records = sent ∷ [] }

abbrev empty : Registry
empty = record { capacity = 1; records = [] }

complete_run : complete (codes "op-1") ok [] (some 10) empty ≡ (one_sent, true)
unfolding complete find_record make_room insert_record
complete_run = refl

complete_once_example :
    (peek (codes "op-1") (complete (codes "op-1") ok [] (some 10) empty).0 ≡ some sent)
    × (complete (codes "op-1") failed [] none (complete (codes "op-1") ok [] (some 10) empty).0
        ≡ ((complete (codes "op-1") ok [] (some 10) empty).0, false))
complete_once_example =
    complete_once (codes "op-1") ok failed [] [] (some 10) none empty
      (record { unique = tt; bounded = omega arith })
      (unfold complete find_record make_room insert_record in refl)

complete_full_run : complete (codes "op-2") ok [] (some 99) one_sent ≡ (one_sent, false)
complete_full_run = complete_full (codes "op-2") ok [] (some 99) one_sent (omega arith) refl

abbrev quiet : Bus
quiet = record { current = (messages, 3) ∷ []; consumed = [] }

publish_all-consume_run :
    let newest = largest (current_of messages quiet) (5 ∷ 4 ∷ []) in
    let r = consume messages (publish_all messages (5 ∷ 4 ∷ []) quiet) in
    (r.1 ≡ (if ltb (consumed_of messages quiet) newest then newest else 0))
    × ((consume messages r.0).1 ≡ 0)
    × (is_stale messages r.0 ≡ false)
    × (is_stale friends r.0 ≡ is_stale friends quiet)
publish_all-consume_run = publish_all-consume messages friends (5 ∷ 4 ∷ []) quiet (λ e. cc)

consume_run : (consume messages (publish_all messages (5 ∷ 4 ∷ []) quiet)).1 ≡ 5
unfolding consume publish_all publish find put
consume_run = refl

abbrev evidence : CutoverEvidence
evidence = record { state = dirty; owner_id = 7; epoch = 2 }

resolve_recovery-native_run : (resolve_recovery 7 evidence evidence true true ≡ use_native) ↔ (
    Agree 7 evidence evidence
    × ((evidence.state ≡ no_write) ⊎ (evidence.state ≡ dirty))
    × (true ≡ true)
    × (true ≡ true))
resolve_recovery-native_run = resolve_recovery-native 7 evidence evidence true true

resolve_recovery-legacy_run : (resolve_recovery 7 evidence evidence false true ≡ use_legacy) ↔ (
    ((0 < 7) × (evidence.state ≡ missing) × (evidence.state ≡ missing) × (false ≡ false))
    ⊎ (Agree 7 evidence evidence × ((evidence.state ≡ legacy) ⊎ (evidence.state ≡ prepared))))
resolve_recovery-legacy_run = resolve_recovery-legacy 7 evidence evidence false true
