-- ===== src/Server/WriteQueue/Order.antt =====
-- DbWriteQueue: the tasks have the effect of running one after the other, in the order of submission.
use jitong_app.Base.{
  ℕ, ◌≡◌, refl, sym, ap, ◌∙◌, Bool, true, false, ◌&&◌, Option, none, some, List, [], ◌∷◌, ◌++◌,
  length, ◌≤◌, zero, suc, arith, Bool-cases, inl, inr,
}
use jitong_app.Server.WriteQueue.{
  Outcome, Task, Queue, SubmitResult, queued, not_running, called_from_worker, new, open_queue,
  submit, note_worker, take_task, run_task, stop_queue,
}
use mathlib.Core.List.{append_assoc}
use mathlib.Core.Path.{subst}

module _ (Db Value : Type 0) where
  pub data Event : Type 0 where
    opens : Bool → Event
    submits : Bool → Task Db Value → Event
    begins : Event
    takes : Event
    runs : Event
    stops : Event

module _ {Db Value : Type 0} where
  unfoldable pub after : Event Db Value → Queue Db Value → Queue Db Value
  after (opens ok) q = (open_queue ok q).0
  after (submits from_worker task) q = (submit from_worker task q).0
  after begins q = note_worker q
  after takes q = take_task q
  after runs q = run_task q
  after stops q = stop_queue q

  unfoldable pub run : List (Event Db Value) → Queue Db Value → Queue Db Value
  run [] q = q
  run (e ∷ events) q = run events (after e q)

  abbrev if_queued : Task Db Value → SubmitResult → List (Task Db Value)
  if_queued task queued = task ∷ []
  if_queued task not_running = []
  if_queued task called_from_worker = []

  abbrev accepted_by : Event Db Value → Queue Db Value → List (Task Db Value)
  accepted_by (submits from_worker task) q = if_queued task (submit from_worker task q).1
  accepted_by _ q = []

  -- The tasks that submit took, in order.
  unfoldable pub accepted : List (Event Db Value) → Queue Db Value → List (Task Db Value)
  accepted [] q = []
  accepted (e ∷ events) q = accepted_by e q ++ accepted events (after e q)

  -- One task after the other, on the database and the answers so far.
  unfoldable pub play : List (Task Db Value) → Db → List (Outcome Value) → Db × List (Outcome Value)
  play [] db answers = (db, answers)
  play (task ∷ tasks) db answers = play tasks (task db).0 (answers ++ (task db).1 ∷ [])

  abbrev pub at_work : Option (Task Db Value) → List (Task Db Value)
  at_work none = []
  at_work (some task) = task ∷ []

  -- What there is to do.
  abbrev pub pending : Queue Db Value → List (Task Db Value)
  pending q = at_work q.current ++ q.queue

  abbrev outlook : List (Task Db Value) → Queue Db Value → Db × List (Outcome Value)
  outlook more q = play (pending q ++ more) q.db q.answers

  outlook-submit :
      (from_worker : Bool) (task : Task Db Value) (more : List (Task Db Value)) (q : Queue Db Value)
      → outlook more (submit from_worker task q).0
        ≡ outlook (if_queued task (submit from_worker task q).1 ++ more) q
  unfolding submit
  outlook-submit from_worker task more q = elim (Bool-cases q.running) [
    | inr r ↦ rw r refl
    | inl r ↦ elim (Bool-cases (from_worker && q.has_worker_id)) [
      | inl w ↦ rw (r, w) refl
      | inr w ↦
          rw (r, w)
            (ap (λ (tasks : List (Task Db Value)). play tasks q.db q.answers)
              (ap (λ (tasks : List (Task Db Value)). tasks ++ more)
                  (sym (append_assoc (at_work q.current) q.queue (task ∷ [])))
                ∙ append_assoc (pending q) (task ∷ []) more))
    ]
  ]

  abbrev row :
      Bool
      → Bool
      → Bool
      → Bool
      → List (Task Db Value)
      → Option (Task Db Value)
      → Db
      → List (Outcome Value)
      → Queue Db Value
  row running started ended has_worker_id queue current db answers = record {
    running = running;
    started = started;
    ended = ended;
    has_worker_id = has_worker_id;
    queue = queue;
    current = current;
    db = db;
    answers = answers;
  }

  outlook-take_row :
      (r s e w : Bool) (tasks : List (Task Db Value)) (current : Option (Task Db Value)) (db : Db)
      (answers : List (Outcome Value)) (more : List (Task Db Value))
      → outlook more (take_task (row r s e w tasks current db answers))
        ≡ outlook more (row r s e w tasks current db answers)
  unfolding take_task
  outlook-take_row r s e false tasks current db answers more = refl
  outlook-take_row r s e true tasks (some task) db answers more = refl
  outlook-take_row true s e true [] none db answers more = refl
  outlook-take_row false s e true [] none db answers more = refl
  outlook-take_row r s e true (task ∷ rest) none db answers more = refl

  outlook-run_row :
      (r s e w : Bool) (tasks : List (Task Db Value)) (current : Option (Task Db Value)) (db : Db)
      (answers : List (Outcome Value)) (more : List (Task Db Value))
      → outlook more (run_task (row r s e w tasks current db answers))
        ≡ outlook more (row r s e w tasks current db answers)
  unfolding run_task play
  outlook-run_row r s e w tasks none db answers more = refl
  outlook-run_row r s e w tasks (some task) db answers more = refl

  outlook-after :
      (event : Event Db Value) (more : List (Task Db Value)) (q : Queue Db Value)
      → outlook more (after event q) ≡ outlook (accepted_by event q ++ more) q
  unfolding after open_queue note_worker stop_queue
  outlook-after (opens ok) more q = ground arith
  outlook-after (submits from_worker task) more q = outlook-submit from_worker task more q
  outlook-after begins more q = ground arith
  outlook-after takes more q =
      outlook-take_row q.running q.started q.ended q.has_worker_id q.queue q.current q.db q.answers
        more
  outlook-after runs more q =
      outlook-run_row q.running q.started q.ended q.has_worker_id q.queue q.current q.db q.answers
        more
  outlook-after stops more q = refl

  outlook-run :
      (events : List (Event Db Value)) (q : Queue Db Value)
      → outlook [] (run events q) ≡ outlook (accepted events q) q
  unfolding run accepted
  outlook-run [] q = refl
  outlook-run (e ∷ events) q =
      outlook-run events (after e q) ∙ outlook-after e (accepted events (after e q)) q

  -- Turns of the writer's loop: it takes a task and runs it.
  unfoldable pub turns : ℕ → List (Event Db Value)
  turns zero = []
  turns (suc n) = takes ∷ runs ∷ turns n

  accepted-turns : (n : ℕ) (q : Queue Db Value) → accepted (turns n) q ≡ []
  unfolding turns accepted
  accepted-turns zero q = refl
  accepted-turns (suc n) q = accepted-turns n (after runs (after takes q))

  nothing_left :
      (n : ℕ) (r s e w : Bool) (db : Db) (answers : List (Outcome Value))
      → pending (run (turns n) (row r s e w [] none db answers)) ≡ []
  unfolding turns run after take_task run_task
  nothing_left zero r s e w db answers = refl
  nothing_left (suc n) r s e false db answers = nothing_left n r s e false db answers
  nothing_left (suc n) true s e true db answers = nothing_left n true s e true db answers
  nothing_left (suc n) false s e true db answers = nothing_left n false s true false db answers

  all_done :
      (n : ℕ) (r s e : Bool) (tasks : List (Task Db Value)) (db : Db)
      (answers : List (Outcome Value))
      → length tasks ≤ n
      → pending (run (turns n) (row r s e true tasks none db answers)) ≡ []
  unfolding turns run after take_task run_task
  all_done n r s e [] db answers h = nothing_left n r s e true db answers
  all_done zero r s e (task ∷ tasks) db answers h = absurd (omega (arith, h))
  all_done (suc n) r s e (task ∷ tasks) db answers h =
      all_done n r s e tasks (task db).0 (answers ++ (task db).1 ∷ []) (omega (arith, h))

  all_done_row :
      (n : ℕ) (r s e : Bool) (tasks : List (Task Db Value)) (current : Option (Task Db Value))
      (db : Db) (answers : List (Outcome Value))
      → length (at_work current ++ tasks) ≤ n
      → pending (run (turns n) (row r s e true tasks current db answers)) ≡ []
  unfolding turns run after take_task run_task
  all_done_row n r s e tasks none db answers h = all_done n r s e tasks db answers h
  all_done_row zero r s e tasks (some task) db answers h = absurd (omega (arith, h))
  all_done_row (suc n) r s e tasks (some task) db answers h =
      all_done n r s e tasks (task db).0 (answers ++ (task db).1 ∷ []) (omega (arith, h))

  outlook_done : (q : Queue Db Value) → pending q ≡ [] → outlook [] q ≡ (q.db, q.answers)
  unfolding play
  outlook_done q e = ap (λ (tasks : List (Task Db Value)). play (tasks ++ []) q.db q.answers) e

  -- Any calls and steps on a new queue leave the writer at work. After as many further turns of its
  -- loop as there are tasks to do, or more, nothing is left to do, also when the queue was stopped:
  -- the database and the answers are those of the tasks that submit took, run one after the other in
  -- the order of submission.
  pub run_in_order :
      (events : List (Event Db Value)) (db : Db) (n : ℕ)
      → let q = run events (new db) in
        let done = run (turns n) q in
        q.has_worker_id ≡ true
        → length (pending q) ≤ n
        → (pending done ≡ []) × ((done.db, done.answers) ≡ play (accepted events (new db)) db [])
  run_in_order events db n w h =
      let q = run events (new db) in
      let done = run (turns n) q in
      let empty : pending done ≡ [] =
        subst
          (λ (b : Bool).
            pending
              (run (turns n) (row q.running q.started q.ended b q.queue q.current q.db q.answers))
            ≡ [])
          (sym w) (all_done_row n q.running q.started q.ended q.queue q.current q.db q.answers h) in
      (
        empty,
        sym (outlook_done done empty)
            ∙ outlook-run (turns n) q
            ∙ ap (λ (tasks : List (Task Db Value)). outlook tasks q) (accepted-turns n q)
            ∙ outlook-run events (new db),
      )
