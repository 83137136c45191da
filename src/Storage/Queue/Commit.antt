-- ===== src/Storage/Queue/Commit.antt =====
-- DbCommandQueue: one command is one transaction.
use mathlib.Core.Path.{subst}
use jitong_app.Base.{
  ℕ, ◌+◌, ◌≡◌, ◌⊎◌, inl, inr, refl, sym, ◌∙◌, ap, Bool, true, false, ◌&&◌, Option, none, some, List,
  [], ◌∷◌, ◌++◌, if◌then◌else◌, arith, Bool-cases, Option-cases,
}
use jitong_app.Storage.Queue.{
  Statement, begin_immediate, commit, rollback, CommandResult, ok, sql_failed, cancelled, Request,
  Queue, Task, invalidate, u64, loads, is_ok, complete, execute, execute_request, finish,
  run_command,
}

-- What SQLite documents of a connection, with `committed` for what other connections read and
-- `in_transaction` for whether a transaction is open on it. BEGIN changes nothing that is committed,
-- nor does a COMMIT that fails, nor a ROLLBACK. A BEGIN that fails leaves the connection as it was
-- in this respect; a COMMIT that succeeds ends the transaction, and so does a ROLLBACK.
pub record SqliteLaws {Db C : Type 0} (exec : Statement → Db → Db × Bool) (committed : Db → C)
    (in_transaction : Db → Bool) : Type 0 where
  pub begin_keeps : (d : Db) → committed (exec begin_immediate d).0 ≡ committed d
  pub begin_fails :
      (d : Db)
      → (exec begin_immediate d).1 ≡ false
      → in_transaction (exec begin_immediate d).0 ≡ in_transaction d
  pub commit_keeps :
      (d : Db) → (exec commit d).1 ≡ false → committed (exec commit d).0 ≡ committed d
  pub commit_ends : (d : Db) → (exec commit d).1 ≡ true → in_transaction (exec commit d).0 ≡ false
  pub rollback_keeps : (d : Db) → committed (exec rollback d).0 ≡ committed d
  pub rollback_ends : (d : Db) → in_transaction (exec rollback d).0 ≡ false

module _ {Db C : Type 0} (exec : Statement → Db → Db × Bool) (committed : Db → C)
    (in_transaction : Db → Bool) where
  -- A transaction that went through: BEGIN, the writes and COMMIT all succeeded, in this order.
  pub record WentThrough (fn : Db → Db × Bool) (d d' : Db) : Type 0 where
    pub began : (exec begin_immediate d).1 ≡ true
    pub wrote : (fn (exec begin_immediate d).0).1 ≡ true
    pub did_commit : exec commit (fn (exec begin_immediate d).0).0 ≡ (d', true)

  -- The command's writes stay inside the transaction in which it runs.
  abbrev pub StaysInside : (Db → Db × Bool) → Db → Type 0
  StaysInside fn d =
      let begun = exec begin_immediate d in
      begun.1 ≡ true → committed (fn begun.0).0 ≡ committed begun.0

  closed-run_command :
      (laws : SqliteLaws exec committed in_transaction) (fn : Db → Db × Bool) (d : Db)
      → in_transaction d ≡ false
      → in_transaction (run_command exec fn d).0 ≡ false
  unfolding run_command
  closed-run_command laws fn d h =
      let begun = exec begin_immediate d in
      let written = fn begun.0 in
      let done = exec commit written.0 in
      ground (
        arith,
        h,
        laws.begin_fails d,
        laws.rollback_ends written.0,
        laws.commit_ends written.0,
        laws.rollback_ends done.0,
      )

  run_command_lem :
      (laws : SqliteLaws exec committed in_transaction) (fn : Db → Db × Bool) (d : Db)
      → StaysInside fn d
      → let r = run_command exec fn d in
        ((r.1 ≡ ok) × WentThrough fn d r.0) ⊎ ((r.1 ≡ sql_failed) × (committed r.0 ≡ committed d))
  unfolding run_command
  run_command_lem laws fn d inside =
      let begun = exec begin_immediate d in
      let written = fn begun.0 in
      let done = exec commit written.0 in
      let e1 = laws.begin_keeps d in
      elim (Bool-cases begun.1) [
        | inr h ↦ rw h (inr (refl, e1))
        | inl h ↦ elim (Bool-cases written.1) [
          | inr k ↦ rw (h, k) (inr (refl, laws.rollback_keeps written.0 ∙ inside h ∙ e1))
          | inl k ↦ elim (Bool-cases done.1) [
            | inr m ↦
                rw (h, k, m)
                  (inr (
                    refl,
                    laws.rollback_keeps done.0 ∙ laws.commit_keeps written.0 m ∙ inside h ∙ e1,
                  ))
            | inl m ↦
                rw (h, k, m)
                  (inl (
                    refl,
                    record { began = h; wrote = k; did_commit = ap (λ (b : Bool). (done.0, b)) m },
                  ))
          ]
        ]
      ]

  -- What a turn of the writer posts: the invalidation first, where there is one, then the answer.
  abbrev pub posted : Request Db → Queue Db → CommandResult → List Task
  posted req q r = complete req.on_done r (
      if is_ok r && q.has_sink
      then q.tasks
        ++ invalidate (
            record {
              table = req.table;
              conversation_id = req.conversation_id;
              version = u64 (q.version + 1);
            }
            ∷ [])
          ∷ []
      else q.tasks)

  -- How a turn ends with the result `r`.
  pub record Answered (req : Request Db) (q q' : Queue Db) (r : CommandResult) : Type 0 where
    pub tasks : q'.tasks ≡ posted req q r
    pub closed : in_transaction q.db ≡ false → in_transaction q'.db ≡ false
    pub done :
        (is_ok r ≡ true
          × ((fn : Db → Db × Bool) × ((req.fn ≡ some fn) × WentThrough fn q.db q'.db)))
        ⊎ (is_ok r ≡ false × (committed q'.db ≡ committed q.db))

  transaction-Answered :
      (laws : SqliteLaws exec committed in_transaction) (req : Request Db) (fn : Db → Db × Bool)
      (q : Queue Db)
      → req.fn ≡ some fn
      → StaysInside fn q.db
      → let r = run_command exec fn q.db in
        Answered req q (finish req r (is_ok r.1 && q.has_sink) q) r.1
  unfolding finish
  transaction-Answered laws req fn q n inside = record {
    tasks = refl;
    closed = closed-run_command laws fn q.db;
    done = elim (run_command_lem laws fn q.db inside) [
      | inl (e, w) ↦ inl (ap is_ok e, (fn, (n, w)))
      | inr (e, w) ↦ inr (ap is_ok e, w)
    ];
  }

  -- `execute_request` with the request's function named apart.
  abbrev chosen : (ℕ → Bool) → Request Db → Option (Db → Db × Bool) → Queue Db → Queue Db
  chosen is_cancelled req o q =
      if loads is_cancelled req.cancel then finish req (q.db, cancelled) false q else (elim o [
        | none ↦ finish req (q.db, sql_failed) false q
        | some fn ↦ let r = run_command exec fn q.db in finish req r (is_ok r.1 && q.has_sink) q
      ])

  kept_answer :
      (req : Request Db) (r : CommandResult) (q : Queue Db)
      → is_ok r ≡ false
      → Answered req q (finish req (q.db, r) false q) r
  unfolding finish
  kept_answer req r q e = record {
    tasks = ground (arith, e);
    closed = λ h. h;
    done = inr (e, refl);
  }

  request_answers :
      (laws : SqliteLaws exec committed in_transaction) (is_cancelled : ℕ → Bool) (req : Request Db)
      (q : Queue Db)
      → ((fn : Db → Db × Bool) → req.fn ≡ some fn → StaysInside fn q.db)
      → (r : CommandResult) × Answered req q (execute_request exec is_cancelled req q) r
  unfolding execute_request
  request_answers laws is_cancelled req q inside =
      elim (Bool-cases (loads is_cancelled req.cancel)) [
        | inl h ↦ rw h (cancelled, kept_answer req cancelled q refl)
        | inr h ↦ elim (Option-cases req.fn) [
          | inl n ↦
              subst
                (λ (o : Option (Db → Db × Bool)).
                  (r : CommandResult) × Answered req q (chosen is_cancelled req o q) r)
                (sym n) (rw h (sql_failed, kept_answer req sql_failed q refl))
          | inr (fn, n) ↦
              subst
                (λ (o : Option (Db → Db × Bool)).
                  (r : CommandResult) × Answered req q (chosen is_cancelled req o q) r)
                (sym n)
                (rw h (
                  (run_command exec fn q.db).1,
                  transaction-Answered laws req fn q n (inside fn n),
                ))
        ]
      ]

  -- A turn of the writer answers the request in its hands with one result. It is `ok` only where
  -- BEGIN, the command's writes and COMMIT all succeeded; then, if there is a sink, one invalidation
  -- with the next version is posted before the answer. With any other result nothing committed has
  -- changed and no invalidation is posted. Where no transaction was open on the connection before,
  -- none is open afterwards. This holds for a connection that obeys SQLite's laws and a command whose
  -- writes stay inside the transaction that this turn begins.
  pub execute_answers :
      (laws : SqliteLaws exec committed in_transaction) (is_cancelled : ℕ → Bool) (req : Request Db)
      (q : Queue Db)
      → q.current ≡ some req
      → ((fn : Db → Db × Bool) → req.fn ≡ some fn → StaysInside fn q.db)
      → (r : CommandResult) × Answered req q (execute exec is_cancelled q) r
  unfolding execute
  execute_answers laws is_cancelled req q h inside =
      let e : execute exec is_cancelled q ≡ execute_request exec is_cancelled req q =
        ap
          (λ (o : Option (Request Db)). elim o [
            | none ↦ q
            | some r ↦ execute_request exec is_cancelled r q
          ])
          h in
      let a = request_answers laws is_cancelled req q inside in
      (a.0, subst (λ (q' : Queue Db). Answered req q q' a.0) (sym e) a.1)
