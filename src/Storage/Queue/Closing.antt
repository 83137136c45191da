-- ===== src/Storage/Queue/Closing.antt =====
-- DbCommandQueue: a close ends, and then every accepted request has its answer.
use mathlib.Core.Path.{subst}
use jitong_app.Base.{
  ℕ, zero, suc, ◌+◌, ◌≤◌, ◌<◌, ◌≡◌, refl, sym, ◌∙◌, Bool, true, false, none, List, [], ◌∷◌, length,
  arith, Bool-cases, inl, inr,
}
use jitong_app.Storage.Queue.{
  Statement, Queue, new, cancel_queue, close_begin, close_end, take, execute, execute_request,
  finish,
}
use jitong_app.Storage.Queue.Runs.{
  Event, takes, executes, close_ends, take_turn, step, run, run-Inv, new-Inv,
}
use jitong_app.Storage.Queue.Exactly.{due, due-run, due-close_begin, answered, waiting_in, accepted}

module _ {Db : Type 0} (exec : Statement → Db → Db × Bool) where
  -- The writer's turns after a close.
  unfoldable pub turns : (ℕ → Bool) → ℕ → List (Event Db)
  turns is_cancelled zero = close_ends ∷ []
  turns is_cancelled (suc n) = executes is_cancelled ∷ takes ∷ turns is_cancelled n

  -- Nothing waits and nothing is in hand.
  abbrev pub IsSettled : Queue Db → Type 0
  IsSettled q = (q.queue ≡ []) × (q.current ≡ none)

  -- What a turn leaves alone.
  record Executed (q q' : Queue Db) : Type 0 where
    queue : q'.queue ≡ q.queue
    current : q'.current ≡ none
    running : q'.running ≡ q.running
    exited : q'.exited ≡ q.exited

  execute-Executed :
      (is_cancelled : ℕ → Bool) (q : Queue Db) → Executed q (execute exec is_cancelled q)
  unfolding execute execute_request finish
  execute-Executed is_cancelled q = record {
    queue = ground arith;
    current = ground arith;
    running = ground arith;
    exited = ground arith;
  }

  close_end-IsSettled : (q : Queue Db) → IsSettled q → IsSettled (close_end q)
  unfolding close_end cancel_queue
  close_end-IsSettled q s = (ground (arith, s.0), ground (arith, s.1))

  IsSettled-turns :
      (is_cancelled : ℕ → Bool) (n : ℕ) (q : Queue Db)
      → q.exited ≡ true
      → IsSettled q
      → IsSettled (run exec (turns is_cancelled n) q)
  unfolding run turns step
  IsSettled-turns is_cancelled zero q e s = close_end-IsSettled q s
  IsSettled-turns is_cancelled (suc n) q e s =
      let x = execute-Executed is_cancelled q in
      let q1 = execute exec is_cancelled q in
      let e1 : q1.exited ≡ true = x.exited ∙ e in
      let same : take_turn q1 ≡ q1 = rw e1 refl in
      subst (λ (t : Queue Db). IsSettled (run exec (turns is_cancelled n) t)) (sym same)
        (IsSettled-turns is_cancelled n q1 e1 (x.queue ∙ s.0, x.current))

  -- A turn of a stopped writer with empty hands takes the first request or leaves the loop.
  record Taken (q t : Queue Db) : Type 0 where
    running : t.running ≡ q.running
    left : t.exited ≡ true → IsSettled t
    shorter : t.exited ≡ false → length t.queue + 1 ≤ length q.queue

  take_turn-Taken :
      (q : Queue Db)
      → q.running ≡ false
      → q.exited ≡ false
      → q.current ≡ none
      → Taken q (take_turn q)
  unfolding take
  take_turn-Taken q r e n = record {
    running = ground arith;
    left = λ out. (ground arith, ground arith);
    shorter = λ still. ground arith;
  }

  turns-IsSettled :
      (is_cancelled : ℕ → Bool) (n : ℕ) (q : Queue Db)
      → q.running ≡ false
      → q.exited ≡ false
      → length q.queue < n
      → IsSettled (run exec (turns is_cancelled n) q)
  unfolding run turns step
  turns-IsSettled is_cancelled zero q r e h = absurd (omega arith)
  turns-IsSettled is_cancelled (suc n) q r e h =
      let x = execute-Executed is_cancelled q in
      let q1 = execute exec is_cancelled q in
      let t = take_turn q1 in
      let k = take_turn-Taken q1 (x.running ∙ r) (x.exited ∙ e) x.current in
      elim (Bool-cases t.exited) [
        | inl out ↦ IsSettled-turns is_cancelled n t out (k.left out)
        | inr still ↦
            turns-IsSettled is_cancelled n t (k.running ∙ x.running ∙ r) still
              (ground (arith, k.shorter still, x.queue))
      ]

  accepted-turns :
      (c : ℕ) (is_cancelled : ℕ → Bool) (n : ℕ) (q : Queue Db)
      → accepted exec c (turns is_cancelled n) q ≡ 0
  unfolding accepted turns
  accepted-turns c is_cancelled zero q = refl
  accepted-turns c is_cancelled (suc n) q =
      accepted-turns c is_cancelled n (step exec takes (step exec (executes is_cancelled) q))

  due-settled : (c : ℕ) (q : Queue Db) → IsSettled q → due c q ≡ answered c q.tasks
  unfolding due waiting_in
  due-settled c q s = ground (arith, s.0, s.1)

  due-new : (c : ℕ) (d : Db) (capacity : ℕ) (sink : Bool) → due c (new d capacity sink) ≡ 0
  unfolding due waiting_in new answered
  due-new c d capacity sink = refl

  stopped : (q : Queue Db) → q.running ≡ true → close_begin q ≡ record q { running = false }
  unfolding close_begin
  stopped q r = rw r refl

  -- Close a queue at any point of a run from a new one, while it is open. Once the writer has made
  -- one turn more than requests were waiting, and `close` has joined it, every callback has as many
  -- answers as requests with it were accepted, and no request is left.
  pub close_answers_all :
      (c : ℕ) (d : Db) (capacity : ℕ) (sink : Bool) (es : List (Event Db)) (is_cancelled : ℕ → Bool)
      → (run exec es (new d capacity sink)).running ≡ true
      → let q = run exec es (new d capacity sink) in
        let q' = run exec (turns is_cancelled (suc (length q.queue))) (close_begin q) in
        IsSettled q' × (answered c q'.tasks ≡ accepted exec c es (new d capacity sink))
  close_answers_all c d capacity sink es is_cancelled r =
      let q = run exec es (new d capacity sink) in
      let v = run-Inv exec es (new d capacity sink) (new-Inv d capacity sink) in
      let es' = turns is_cancelled (suc (length q.queue)) in
      let out : q.exited ≡ false = ground (arith, v.idle) in
      let s : IsSettled (run exec es' (close_begin q)) = rw (stopped q r) (
        turns-IsSettled is_cancelled (suc (length q.queue)) (record q { running = false }) refl out
          (omega arith)) in
      let start = new d capacity sink in
      let a = due-run exec c es' (close_begin q) in
      let b = due-run exec c es start in
      let none' = accepted-turns c is_cancelled (suc (length q.queue)) (close_begin q) in
      (
        s,
        omega (
          arith,
          a,
          b,
          none',
          due-close_begin c q,
          due-settled c (run exec es' (close_begin q)) s,
          due-new c d capacity sink,
        ),
      )
