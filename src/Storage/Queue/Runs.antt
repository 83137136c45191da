-- ===== src/Storage/Queue/Runs.antt =====
-- DbCommandQueue: the calls and the writer's turns as one sequence of steps, and what they keep.
use jitong_app.Base.{
  ℕ, ◌+◌, ◌≤◌, ◌≡◌, refl, Bool, true, false, Option, none, some, List, [], ◌∷◌, if◌then◌else◌,
  length, length-append, arith,
}
use jitong_app.Storage.Queue.{
  Statement, Request, Queue, new, submit, cancel_queue, close_begin, close_end, take, execute,
  execute_request, finish, run_command,
}

pub data Event (Db : Type 0) : Type 0 where
  submits : Request Db → Event Db
  takes : Event Db
  executes : (ℕ → Bool) → Event Db
  close_begins : Event Db
  close_ends : Event Db

abbrev pub in_hand : {Db : Type 0} → Option (Request Db) → ℕ
in_hand none = 0
in_hand (some req) = 1

pub record Inv {Db : Type 0} (q : Queue Db) : Type 0 where
  pub counted : q.pending ≡ length q.queue + in_hand q.current
  pub bounded : length q.queue ≤ q.capacity
  pub idle : q.exited ≡ true → (q.queue ≡ []) × ((q.current ≡ none) × (q.running ≡ false))

-- The writer thread takes only with empty hands and while it runs.
abbrev pub take_turn : {Db : Type 0} → Queue Db → Queue Db
take_turn q = if q.exited then q else (elim q.current [ none ↦ take q | some req ↦ q ])

module _ {Db : Type 0} (exec : Statement → Db → Db × Bool) where
  unfoldable pub step : Event Db → Queue Db → Queue Db
  step (submits req) q = (submit req q).0
  step takes q = take_turn q
  step (executes is_cancelled) q = execute exec is_cancelled q
  step close_begins q = close_begin q
  step close_ends q = close_end q

  unfoldable pub run : List (Event Db) → Queue Db → Queue Db
  run [] q = q
  run (e ∷ es) q = run es (step e q)

  step-Inv : (e : Event Db) (q : Queue Db) → Inv q → Inv (step e q)
  unfolding step submit take execute execute_request finish run_command close_begin close_end
      cancel_queue
  step-Inv (submits req) q v = record {
    counted = ground (arith, v.counted, length-append q.queue (req ∷ []));
    bounded = ground (arith, v.bounded, length-append q.queue (req ∷ []));
    idle = λ e. ground (arith, v.idle);
  }
  step-Inv takes q v = record {
    counted = ground (arith, v.counted);
    bounded = ground (arith, v.bounded);
    idle = λ e. ground (arith, v.idle);
  }
  step-Inv (executes c) q v = record {
    counted = ground (arith, v.counted);
    bounded = ground (arith, v.bounded);
    idle = λ e. ground (arith, v.idle);
  }
  step-Inv close_begins q v = record {
    counted = ground (arith, v.counted);
    bounded = ground (arith, v.bounded);
    idle = λ e. ground (arith, v.idle);
  }
  step-Inv close_ends q v = record {
    counted = ground (arith, v.counted);
    bounded = ground (arith, v.bounded);
    idle = λ e. ground (arith, v.idle);
  }

  -- After any steps on a new queue, at most `capacity` requests wait, `pending` counts the waiting
  -- requests and the one in the writer's hands, and a writer that has left its loop left nothing
  -- behind.
  pub run-Inv : (es : List (Event Db)) (q : Queue Db) → Inv q → Inv (run es q)
  unfolding run
  run-Inv [] q v = v
  run-Inv (e ∷ es) q v = run-Inv es (step e q) (step-Inv e q v)

pub new-Inv : {Db : Type 0} (d : Db) (capacity : ℕ) (sink : Bool) → Inv (new d capacity sink)
unfolding new
new-Inv d capacity sink = record {
  counted = refl;
  bounded = omega arith;
  idle = λ e. absurd (ground arith);
}
