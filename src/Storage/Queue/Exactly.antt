-- ===== src/Storage/Queue/Exactly.antt =====
-- DbCommandQueue: every accepted request is answered exactly once, and a close answers them all.
use jitong_app.Base.{
  ℕ, ◌+◌, ◌≡◌, refl, Bool, true, false, ◌&&◌, Option, none, some, List, [], ◌∷◌, ◌++◌,
  if◌then◌else◌, ◌==◌, arith, count_of, count_of-append, Bool-cases, Option-cases, inl, inr,
}
use jitong_app.Storage.Queue.{
  Statement, CommandResult, Request, Queue, Invalidation, Task, notify, invalidate, u64, new, loads,
  is_ok, complete, submit, cancel_all, cancel_queue, close_begin, close_end, take, execute,
  execute_request, finish, run_command,
}
use jitong_app.Storage.Queue.Runs.{
  Event, submits, takes, executes, close_begins, close_ends, take_turn, step, run,
}

-- Which answers go to a callback, and which requests have it.
abbrev pub answers : ℕ → Task → Bool
answers c (notify done result) = c == done
answers c (invalidate invs) = false

abbrev pub calls : ℕ → Option ℕ → ℕ
calls c none = 0
calls c (some done) = if c == done then 1 else 0

unfoldable pub answered : ℕ → List Task → ℕ
answered c tasks = count_of (answers c) tasks

answered-append :
    (c : ℕ) (xs ys : List Task) → answered c (xs ++ ys) ≡ answered c xs + answered c ys
unfolding answered
answered-append c xs ys = count_of-append (answers c) xs ys

answered-complete :
    (c : ℕ) (done : Option ℕ) (r : CommandResult) (tasks : List Task)
    → answered c (complete done r tasks) ≡ answered c tasks + calls c done
unfolding answered
answered-complete c none r tasks = omega arith
answered-complete c (some done) r tasks =
    ground (arith, count_of-append (answers c) tasks (notify done r ∷ []))

answered-invalidate :
    (c : ℕ) (invs : List Invalidation) (tasks : List Task)
    → answered c (tasks ++ invalidate invs ∷ []) ≡ answered c tasks
unfolding answered
answered-invalidate c invs tasks =
    omega (arith, count_of-append (answers c) tasks (invalidate invs ∷ []))

module _ {Db : Type 0} where
  unfoldable pub waiting_in : ℕ → List (Request Db) → ℕ
  waiting_in c [] = 0
  waiting_in c (req ∷ reqs) = calls c req.on_done + waiting_in c reqs

  abbrev pub held : ℕ → Option (Request Db) → ℕ
  held c none = 0
  held c (some req) = calls c req.on_done

  -- Answered or still to be answered.
  unfoldable pub due : ℕ → Queue Db → ℕ
  due c q = answered c q.tasks + (held c q.current + waiting_in c q.queue)

  waiting_in-append :
      (c : ℕ) (xs ys : List (Request Db))
      → waiting_in c (xs ++ ys) ≡ waiting_in c xs + waiting_in c ys
  unfolding waiting_in
  waiting_in-append c [] ys = omega arith
  waiting_in-append c (req ∷ xs) ys = omega (arith, waiting_in-append c xs ys)

  answered-cancel_all :
      (c : ℕ) (reqs : List (Request Db)) (tasks : List Task)
      → answered c (cancel_all reqs tasks) ≡ answered c tasks + waiting_in c reqs
  unfolding cancel_all waiting_in
  answered-cancel_all c [] tasks = omega arith
  answered-cancel_all c (req ∷ reqs) tasks = omega (
    arith,
    answered-cancel_all c reqs (complete req.on_done CommandResult.cancelled tasks),
    answered-complete c req.on_done CommandResult.cancelled tasks,
  )

  due-cancel_queue : (c : ℕ) (q : Queue Db) → due c (cancel_queue q) ≡ due c q
  unfolding due cancel_queue waiting_in
  due-cancel_queue c q = omega (arith, answered-cancel_all c q.queue q.tasks)

  due-finish :
      (c : ℕ) (req : Request Db) (r : Db × CommandResult) (b : Bool) (q : Queue Db)
      → q.current ≡ some req
      → due c (finish req r b q) ≡ due c q
  unfolding due finish
  due-finish c req r false q e = ground (arith, e, answered-complete c req.on_done r.1 q.tasks)
  due-finish c req r true q e =
      let invs : List Invalidation =
        record {
          table = req.table;
          conversation_id = req.conversation_id;
          version = u64 (q.version + 1);
        }
        ∷ [] in
      ground (
        arith,
        e,
        answered-invalidate c invs q.tasks,
        answered-complete c req.on_done r.1 (q.tasks ++ invalidate invs ∷ []),
      )

  due-execute_request :
      (exec : Statement → Db → Db × Bool) (is_cancelled : ℕ → Bool) (c : ℕ) (req : Request Db)
      (q : Queue Db)
      → q.current ≡ some req
      → due c (execute_request exec is_cancelled req q) ≡ due c q
  unfolding execute_request
  due-execute_request exec is_cancelled c req q e =
      elim (Bool-cases (loads is_cancelled req.cancel)) [
        | inl h ↦ rw h (due-finish c req (q.db, CommandResult.cancelled) false q e)
        | inr h ↦ elim (Option-cases req.fn) [
          | inl n ↦ rw (h, n) (due-finish c req (q.db, CommandResult.sql_failed) false q e)
          | inr (fn, n) ↦
              let r = run_command exec fn q.db in
              rw (h, n) (due-finish c req r (is_ok r.1 && q.has_sink) q e)
        ]
      ]

  due-submit :
      (c : ℕ) (req : Request Db) (q : Queue Db)
      → due c (submit req q).0
        ≡ due c q + (if is_ok (submit req q).1 then calls c req.on_done else 0)
  unfolding submit due waiting_in
  due-submit c req q = ground (arith, waiting_in-append c q.queue (req ∷ []))

  due-take : (c : ℕ) (q : Queue Db) → due c (take_turn q) ≡ due c q
  unfolding take due waiting_in
  due-take c q = ground arith

  pub due-close_begin : (c : ℕ) (q : Queue Db) → due c (close_begin q) ≡ due c q
  unfolding close_begin due cancel_queue waiting_in
  due-close_begin c q = ground (arith, answered-cancel_all c q.queue q.tasks)

  due-close_end : (c : ℕ) (q : Queue Db) → due c (close_end q) ≡ due c q
  unfolding close_end due cancel_queue waiting_in
  due-close_end c q = ground (arith, answered-cancel_all c q.queue q.tasks)

  due-execute :
      (exec : Statement → Db → Db × Bool) (is_cancelled : ℕ → Bool) (c : ℕ) (q : Queue Db)
      → due c (execute exec is_cancelled q) ≡ due c q
  unfolding execute
  due-execute exec is_cancelled c q = go q.current refl
    where
      go :
          (o : Option (Request Db))
          → q.current ≡ o
          → due c (elim o [ none ↦ q | some req ↦ execute_request exec is_cancelled req q ])
            ≡ due c q
      go none n = refl
      go (some req) n = due-execute_request exec is_cancelled c req q n

module _ {Db : Type 0} (exec : Statement → Db → Db × Bool) where
  -- How many requests with the callback the run accepted.
  unfoldable pub accepted : ℕ → List (Event Db) → Queue Db → ℕ
  accepted c [] q = 0
  accepted c (submits req ∷ es) q =
      (if is_ok (submit req q).1 then calls c req.on_done else 0) + accepted c es (submit req q).0
  accepted c (e ∷ es) q = accepted c es (step exec e q)

  due-step :
      (c : ℕ) (e : Event Db) (es : List (Event Db)) (q : Queue Db)
      → due c (step exec e q) + accepted c es (step exec e q) ≡ due c q + accepted c (e ∷ es) q
  unfolding accepted step
  due-step c (submits req) es q = omega (arith, due-submit c req q)
  due-step c takes es q = omega (arith, due-take c q)
  due-step c (executes is_cancelled) es q = omega (arith, due-execute exec is_cancelled c q)
  due-step c close_begins es q = omega (arith, due-close_begin c q)
  due-step c close_ends es q = omega (arith, due-close_end c q)

  pub due-run :
      (c : ℕ) (es : List (Event Db)) (q : Queue Db)
      → due c (run exec es q) ≡ due c q + accepted c es q
  unfolding run accepted
  due-run c [] q = omega arith
  due-run c (e ∷ es) q = omega (arith, due-run c es (step exec e q), due-step c e es q)

  -- At any point of a run from a new queue, the answers that went to a callback and the requests with
  -- it that still wait or are in the writer's hands are together as many as the requests with it that
  -- `submit` accepted, whatever the commands, cancellations and closes in between.
  pub run_exactly :
      (c : ℕ) (d : Db) (capacity : ℕ) (sink : Bool) (es : List (Event Db))
      → let q = run exec es (new d capacity sink) in
        answered c q.tasks + (held c q.current + waiting_in c q.queue)
        ≡ accepted c es (new d capacity sink)
  unfolding new due answered waiting_in
  run_exactly c d capacity sink es = omega (arith, due-run c es (new d capacity sink))
