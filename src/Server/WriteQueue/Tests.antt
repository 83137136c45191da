-- ===== src/Server/WriteQueue/Tests.antt =====
-- Runs of DbWriteQueue on a number.
use jitong_app.Base.{ℕ, ◌+◌, ◌≡◌, refl, true, false, List, [], ◌∷◌, arith}
use jitong_app.Server.WriteQueue.{
  value, exception, Task, called_from_worker, new, open_queue, submit, note_worker, take_task,
  stop_queue,
}
use jitong_app.Server.WriteQueue.Order.{
  Event, opens, submits, begins, takes, stops, after, run, accepted, play, turns, pending,
  run_in_order,
}

abbrev add : ℕ → Task ℕ ℕ
add n db = (db + n, value db)

abbrev fail : Task ℕ ℕ
fail db = (db, exception)

abbrev events : List (Event ℕ ℕ)
events =
    opens true
    ∷ begins
    ∷ submits false (add 3)
    ∷ takes
    ∷ submits true (add 100)
    ∷ submits false fail
    ∷ submits false (add 4)
    ∷ stops
    ∷ submits false (add 100)
    ∷ []

own_task_run :
    (submit true (add 1) (run (opens true ∷ begins ∷ []) (new 10))).1 ≡ called_from_worker
unfolding run after open_queue note_worker submit
own_task_run = refl

play_run : play (accepted events (new 10)) 10 [] ≡ (17, value 10 ∷ exception ∷ value 13 ∷ [])
unfolding accepted after open_queue note_worker submit take_task stop_queue play
play_run = refl

run_in_order_example :
    let done = run (turns 3) (run events (new 10)) in
    (pending done ≡ []) × ((done.db, done.answers) ≡ play (accepted events (new 10)) 10 [])
unfolding run after open_queue note_worker submit take_task stop_queue
run_in_order_example = run_in_order events 10 3 refl (omega arith)
