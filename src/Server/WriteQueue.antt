-- ===== src/Server/WriteQueue.antt =====
-- im_server/src/db/DbWriteQueue.h and DbWriteQueue.cpp: submit, the writer's loop and the end of the
-- queue, as steps that a run takes in any order. A task is a function on the database that answers
-- with a value or an exception. Whether sqlite opens and takes the pragmas is an argument of open.
pub mod Order
mod Tests
use jitong_app.Base.{
  ℕ, Bool, true, false, not, ◌&&◌, Option, none, some, List, [], ◌∷◌, ◌++◌, if◌then◌else◌,
}

pub data SubmitResult : Type 0 where
  queued not_running called_from_worker : SubmitResult

pub data Outcome (A : Type 0) : Type 0 where
  value : A → Outcome A
  exception : Outcome A

module _ (Db Value : Type 0) where
  abbrev pub Task : Type 0
  Task = Db → Db × Outcome Value

  -- `current` is the task that the loop took and has yet to run; `has_worker_id` is whether m_workerId
  -- is the writer's thread; `answers` are the promises that are kept, in order.
  pub record Queue : Type 0 where
    pub running : Bool
    pub started : Bool
    pub ended : Bool
    pub has_worker_id : Bool
    pub queue : List (Db → Db × Outcome Value)
    pub current : Option (Db → Db × Outcome Value)
    pub db : Db
    pub answers : List (Outcome Value)

module _ {Db Value : Type 0} where
  abbrev pub new : Db → Queue Db Value
  new db = record {
    running = false;
    started = false;
    ended = false;
    has_worker_id = false;
    queue = [];
    current = none;
    db = db;
    answers = [];
  }

  unfoldable pub open_queue : Bool → Queue Db Value → Queue Db Value × Bool
  open_queue opens q =
      if q.running
      then (q, true)
      else if opens
      then (record q { running = true; started = true }, true)
      else (q, false)

  -- submit, up to the wait for the answer.
  unfoldable pub submit : Bool → Task Db Value → Queue Db Value → Queue Db Value × SubmitResult
  submit from_worker task q =
      if not q.running
      then (q, not_running)
      else if from_worker && q.has_worker_id
      then (q, called_from_worker)
      else (record q { queue = q.queue ++ task ∷ [] }, queued)

  -- The beginning of run.
  unfoldable pub note_worker : Queue Db Value → Queue Db Value
  note_worker q = if q.started && not q.ended then record q { has_worker_id = true } else q

  abbrev pub take_from : List (Task Db Value) → Queue Db Value → Queue Db Value
  take_from [] q = if q.running then q else record q { has_worker_id = false; ended = true }
  take_from (task ∷ rest) q = record q { queue = rest; current = some task }

  abbrev pub take_idle : Queue Db Value → Option (Task Db Value) → Queue Db Value
  take_idle q none = take_from q.queue q
  take_idle q (some task) = q

  -- The locked part of a turn of the loop: it waits, ends or takes a task.
  unfoldable pub take_task : Queue Db Value → Queue Db Value
  take_task q = if q.has_worker_id then take_idle q q.current else q

  abbrev pub run_current : Queue Db Value → Option (Task Db Value) → Queue Db Value
  run_current q none = q
  run_current q (some task) =
      let r = task q.db in record q { current = none; db = r.0; answers = q.answers ++ r.1 ∷ [] }

  unfoldable pub run_task : Queue Db Value → Queue Db Value
  run_task q = run_current q q.current

  -- The beginning of the destructor.
  unfoldable pub stop_queue : Queue Db Value → Queue Db Value
  stop_queue q = record q { running = false }
