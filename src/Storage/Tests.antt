-- ===== src/Storage/Tests.antt =====
-- Runs of DbCommandQueue on a connection of two numbers, the committed one and the one that the
-- transaction has written, and whether a transaction is open.
use jitong_app.Base.{
  ℕ, ◌+◌, ◌≡◌, refl, sym, ap, Bool, true, false, Option, none, some, List, [], ◌∷◌, codes, length,
  suc,
}
use jitong_app.Storage.Queue.{
  Statement, begin_immediate, commit, rollback, CommandResult, Request, Queue, new, submit, take,
  execute, execute_request, finish, run_command, close_begin,
}
use jitong_app.Storage.Queue.Runs.{
  Event, submits, takes, executes, run, step, Inv, run-Inv, new-Inv,
}
use jitong_app.Storage.Queue.Exactly.{answered, waiting_in, held, accepted, run_exactly}
use jitong_app.Storage.Queue.Closing.{turns, IsSettled, close_answers_all}
use jitong_app.Storage.Queue.Commit.{SqliteLaws, Answered, execute_answers}

abbrev Pair : Type 0
Pair = ℕ × ℕ × Bool

abbrev exec : Statement → Pair → Pair × Bool
exec begin_immediate (old, now, true) = ((old, now, true), false)
exec begin_immediate (old, now, false) = ((old, old, true), true)
exec commit (old, now, true) = ((now, now, false), true)
exec commit (old, now, false) = ((old, now, false), false)
exec rollback (old, now, open_one) = ((old, old, false), open_one)

abbrev committed : Pair → ℕ
committed d = d.0

abbrev in_transaction : Pair → Bool
in_transaction d = d.2

begin_keeps : (d : Pair) → committed (exec begin_immediate d).0 ≡ committed d
begin_keeps (old, now, true) = refl
begin_keeps (old, now, false) = refl

begin_fails :
    (d : Pair)
    → (exec begin_immediate d).1 ≡ false
    → in_transaction (exec begin_immediate d).0 ≡ in_transaction d
begin_fails (old, now, true) e = refl
begin_fails (old, now, false) e = cc

commit_keeps : (d : Pair) → (exec commit d).1 ≡ false → committed (exec commit d).0 ≡ committed d
commit_keeps (old, now, true) e = cc
commit_keeps (old, now, false) e = refl

commit_ends : (d : Pair) → (exec commit d).1 ≡ true → in_transaction (exec commit d).0 ≡ false
commit_ends (old, now, true) e = refl
commit_ends (old, now, false) e = refl

laws : SqliteLaws exec committed in_transaction
laws = record {
  begin_keeps = begin_keeps;
  begin_fails = begin_fails;
  commit_keeps = commit_keeps;
  commit_ends = commit_ends;
  rollback_keeps = λ d. refl;
  rollback_ends = λ d. refl;
}

abbrev increment : Pair → Pair × Bool
increment d = ((d.0, d.1 + 1, d.2), true)

abbrev or_increment : Option (Pair → Pair × Bool) → Pair → Pair × Bool
or_increment none = increment
or_increment (some fn) = fn

abbrev write : ℕ → Request Pair
write c = record {
  fn = some increment;
  cancel = none;
  table = codes "messages";
  conversation_id = 9;
  on_done = some c;
}

abbrev never : ℕ → Bool
never token = false

abbrev first_calls : List (Event Pair)
first_calls =
    submits (write 1) ∷ submits (write 2) ∷ takes ∷ executes never ∷ submits (write 3) ∷ []

abbrev start : Queue Pair
start = new (5, 5, false) 2 true

first_run :
    ((run exec first_calls start).db ≡ (6, 6, false)) × (accepted exec 3 first_calls start ≡ 1)
unfolding run step accepted submit take execute execute_request finish run_command new
first_run = (refl, refl)

first_calls-Inv : Inv (run exec first_calls start)
first_calls-Inv = run-Inv exec first_calls start (new-Inv (5, 5, false) 2 true)

run_exactly_example :
    answered 2 (run exec first_calls start).tasks
      + (held 2 (run exec first_calls start).current
          + waiting_in 2 (run exec first_calls start).queue)
    ≡ accepted exec 2 first_calls start
run_exactly_example = run_exactly exec 2 (5, 5, false) 2 true first_calls

close_answers_all_example :
    let q = run exec first_calls start in
    let q' = run exec (turns exec never (suc (length q.queue))) (close_begin q) in
    IsSettled exec q' × (answered 3 q'.tasks ≡ accepted exec 3 first_calls start)
unfolding run step submit take execute execute_request finish run_command new
close_answers_all_example = close_answers_all exec 3 (5, 5, false) 2 true first_calls never refl

abbrev taken : Queue Pair
taken = record start { current = some (write 1); pending = 1 }

execute_answers_example :
    (r : CommandResult) × Answered exec committed in_transaction
      (write 1)
      taken
      (execute exec never taken)
      r
unfolding new
execute_answers_example =
    execute_answers exec committed in_transaction laws never (write 1) taken refl (λ fn e b.
      sym (ap (λ (o : Option (Pair → Pair × Bool)). (or_increment o (5, 5, true)).0.0) e))
