-- ===== src/Storage/Queue.antt =====
-- client_core/src/storage/DbCommandQueue.cpp and include/client_core/storage/DbCommandQueue.h. The
-- connection is a value of `Db`, and `exec` stands for sqlite3_exec, with whether it returned
-- SQLITE_OK. A callback is a number; a write function that throws returns false. `tasks` holds what
-- was posted to the completion executor, oldest first.
pub mod Runs
pub mod Exactly
pub mod Closing
pub mod Commit
use jitong_app.Base.{
  ℕ, ◌+◌, ◌-◌, ◌%◌, Bool, true, false, not, ◌&&◌, Option, none, some, List, [], ◌∷◌, ◌++◌, Bytes,
  leb, if◌then◌else◌, length,
}

pub data Statement : Type 0 where
  begin_immediate : Statement
  commit : Statement
  rollback : Statement

pub data CommandResult : Type 0 where
  ok : CommandResult
  cancelled : CommandResult
  queue_full : CommandResult
  not_open : CommandResult
  sql_failed : CommandResult

pub record Invalidation : Type 0 where
  pub table : Bytes
  pub conversation_id : ℕ
  pub version : ℕ

-- `cancel` names the token, whose value `is_cancelled` gives at the time of the load.
pub record Request (Db : Type 0) : Type 0 where
  pub fn : Option (Db → Db × Bool)
  pub cancel : Option ℕ
  pub table : Bytes
  pub conversation_id : ℕ
  pub on_done : Option ℕ

pub data Task : Type 0 where
  notify : ℕ → CommandResult → Task
  invalidate : List Invalidation → Task

-- `current` is the request in the writer thread's hands, `exited` says that its loop returned.
pub record Queue (Db : Type 0) : Type 0 where
  pub db : Db
  pub capacity : ℕ
  pub has_sink : Bool
  pub queue : List (Request Db)
  pub current : Option (Request Db)
  pub running : Bool
  pub exited : Bool
  pub pending : ℕ
  pub version : ℕ
  pub tasks : List Task

unfoldable pub new : {Db : Type 0} → Db → ℕ → Bool → Queue Db
new d capacity has_sink = record {
  db = d;
  capacity = capacity;
  has_sink = has_sink;
  queue = [];
  current = none;
  running = true;
  exited = false;
  pending = 0;
  version = 0;
  tasks = [];
}

abbrev pub u64 : ℕ → ℕ
u64 n = n % 18446744073709551616

-- `complete` of the anonymous namespace: nothing is posted for an empty callback.
abbrev pub complete : Option ℕ → CommandResult → List Task → List Task
complete none result tasks = tasks
complete (some done) result tasks = tasks ++ notify done result ∷ []

abbrev pub loads : (ℕ → Bool) → Option ℕ → Bool
loads is_cancelled none = false
loads is_cancelled (some token) = is_cancelled token

abbrev pub is_ok : CommandResult → Bool
is_ok ok = true
is_ok _ = false

module _ {Db : Type 0} where
  unfoldable pub submit : Request Db → Queue Db → Queue Db × CommandResult
  submit req q =
      if not q.running
      then (q, not_open)
      else if leb q.capacity (length q.queue)
      then (q, queue_full)
      else (record q { queue = q.queue ++ req ∷ []; pending = q.pending + 1 }, ok)

  unfoldable pub cancel_all : List (Request Db) → List Task → List Task
  cancel_all [] tasks = tasks
  cancel_all (req ∷ reqs) tasks = cancel_all reqs (complete req.on_done cancelled tasks)

  -- What `close` does with the requests that were not begun.
  unfoldable pub cancel_queue : Queue Db → Queue Db
  unfolding cancel_all
  cancel_queue q = record q {
    queue = [];
    pending = q.pending - length q.queue;
    tasks = cancel_all q.queue q.tasks;
  }

  -- `close` up to the join: a second call cancels at once.
  unfoldable pub close_begin : Queue Db → Queue Db
  unfolding cancel_queue
  close_begin q = if q.running then record q { running = false } else cancel_queue q

  -- `close` after the join, which returns once the writer has left its loop.
  unfoldable pub close_end : Queue Db → Queue Db
  unfolding cancel_queue
  close_end q = if q.exited then cancel_queue q else q

  -- The writer's loop up to the end of the locked block: it waits, leaves, or takes the first.
  unfoldable pub take : Queue Db → Queue Db
  take q = elim q.queue [
    | [] ↦ (if q.running then q else record q { exited = true })
    | req ∷ reqs ↦ record q { queue = reqs; current = some req }
  ]

  -- One transaction.
  unfoldable pub run_command :
      (Statement → Db → Db × Bool) → (Db → Db × Bool) → Db → Db × CommandResult
  run_command exec fn d =
      let begun = exec begin_immediate d in
      if begun.1
      then (let written = fn begun.0 in
          if written.1
          then (let committed = exec commit written.0 in
              if committed.1
              then (committed.0, ok)
              else ((exec rollback committed.0).0, sql_failed))
          else ((exec rollback written.0).0, sql_failed))
      else (begun.0, sql_failed)

  -- The end of a turn of the loop, with the connection and the result.
  unfoldable pub finish : Request Db → Db × CommandResult → Bool → Queue Db → Queue Db
  finish req r invalidates q =
      let version = u64 (q.version + 1) in
      let inv : Invalidation = record {
        table = req.table;
        conversation_id = req.conversation_id;
        version = version;
      } in
      record q {
        db = r.0;
        current = none;
        pending = q.pending - 1;
        version = if invalidates then version else q.version;
        tasks =
            complete req.on_done r.1
              (if invalidates then q.tasks ++ invalidate (inv ∷ []) ∷ [] else q.tasks);
      }

  unfoldable pub execute_request :
      (Statement → Db → Db × Bool) → (ℕ → Bool) → Request Db → Queue Db → Queue Db
  unfolding run_command finish
  execute_request exec is_cancelled req q =
      if loads is_cancelled req.cancel then finish req (q.db, cancelled) false q else (elim req.fn [
        | none ↦ finish req (q.db, sql_failed) false q
        | some fn ↦ let r = run_command exec fn q.db in finish req r (is_ok r.1 && q.has_sink) q
      ])

  -- The rest of a turn of the writer's loop.
  unfoldable pub execute : (Statement → Db → Db × Bool) → (ℕ → Bool) → Queue Db → Queue Db
  unfolding execute_request
  execute exec is_cancelled q = elim q.current [
    | none ↦ q
    | some req ↦ execute_request exec is_cancelled req q
  ]
