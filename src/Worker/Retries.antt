-- ===== src/Worker/Retries.antt =====
-- A task that always fails, from its first execution to the dead-letter queue.
use mathlib.Core.List.{append-nil, append_assoc}
use kojin.Prelude.{
  ℕ, zero, suc, ◌+◌, ◌≡◌, refl, sym, ap, ◌∙◌, String, List, [], ◌∷◌, ◌++◌, All, length, arith,
  if_same, string_key,
}
use kojin.Error.{KojinError, err}
use kojin.TaskState.{started, dead_lettered}
use kojin.Message.{TaskMessage}
use kojin.Broker.{IsBroker}
use kojin.MemoryBroker.{MemoryBroker}
use kojin.MemoryBroker.Contract.{view, waiting, dead}
use kojin.MemoryBroker.Polling.{after_pop}
use kojin.MemoryBroker.Fifo.{waiting-after_pop_self}
use kojin.Worker.{Worker, World, Reading}
use kojin.Worker.Messages.{in_state, retried, buried}
use kojin.Worker.Execution.{handle_failure}
use kojin.Worker.Completion.{IsDue, dispatch_of, execute_task_fails}
use kojin.Worker.Failure.{backoff, requeued, handle_failure-requeued, handle_failure-given_up}
use kojin.Worker.Serving.{Turns, serve, serve_done, serve_first}

-- The sleeps before `n` retries, from the retry numbered `r` on.
pub backoffs : ℕ → ℕ → List ℕ
backoffs r zero = []
backoffs r (suc n) = backoff r ∷ backoffs (r + 1) n

-- The dead letter is the message with its retries used up.
pub record IsDeadLetter {J : Type 0} (m d : TaskMessage J) : Type 0 where
  pub id : d.id ≡ m.id
  pub task_name : d.task_name ≡ m.task_name
  pub queue : d.queue ≡ m.queue
  pub payload : d.payload ≡ m.payload
  pub retries : d.retries ≡ m.max_retries
  pub state : d.state ≡ dead_lettered

module _ {J C R M : Type 0} (k : Worker J C (MemoryBroker J) R M) (lawful : IsBroker k.broker view)
    (q : String) where
  -- The message fails whenever it is executed: it is due, its handler returns an error, and other
  -- tasks leave the broker alone.
  pub record IsFailing (m : TaskMessage J) (e : KojinError) (rds : Turns k q) : Type 0 where
    pub on_queue : m.queue ≡ q
    pub fails : dispatch_of k m ≡ err e
    pub due : All (λ (rd : Reading (MemoryBroker J)). IsDue rd.now m.eta) rds
    pub quiet :
        All (λ (rd : Reading (MemoryBroker J)). (b : MemoryBroker J) → rd.meanwhile b ≡ b) rds

  pub record Exhausted (m : TaskMessage J) (n : ℕ) (w : World (MemoryBroker J) R M)
      (ran : List (TaskMessage J)) (w' : World (MemoryBroker J) R M) : Type 0 where
    pub executions : length ran ≡ suc n
    pub emptied : waiting w'.broker q ≡ []
    pub letter : TaskMessage J
    pub is_letter : IsDeadLetter m letter
    pub buried : dead w'.broker q ≡ dead w.broker q ++ letter ∷ []
    pub slept : w'.slept ≡ w.slept ++ backoffs m.retries n

  -- The first turn takes the message and ends in `handle_failure`.
  first_turn :
      (m : TaskMessage J) (e : KojinError) (rd : Reading (MemoryBroker J)) (rds : Turns k q)
      (w : World (MemoryBroker J) R M)
      → IsFailing m e (rd ∷ rds)
      → waiting w.broker q ≡ m ∷ []
      → (e' : KojinError) × (s : M) × (let (ran, w') = serve k q rds (
            handle_failure k rd
              (in_state started m)
              e'
              (record w { broker = after_pop q m [] w.broker; middleware = s })) in
          serve k q (rd ∷ rds) w ≡ (m ∷ ran, w'))
  first_turn m e rd rds w f wait =
      let w1 : World (MemoryBroker J) R M = record w { broker = after_pop q m [] w.broker } in
      let (e', s, p) = execute_task_fails k rd w1 m e f.due.0 f.fails in
      (
        e',
        s,
        serve_first k q rd rds m [] w wait
            ∙ ap (λ v. let (ran, w') = serve k q rds v in (m ∷ ran, w')) p,
      )

  last_turn :
      (m : TaskMessage J) (e : KojinError) (rd : Reading (MemoryBroker J))
      (w : World (MemoryBroker J) R M)
      → IsFailing m e (rd ∷ [])
      → m.max_retries ≡ m.retries
      → waiting w.broker q ≡ m ∷ []
      → Exhausted m 0 w (serve k q (rd ∷ []) w).0 (serve k q (rd ∷ []) w).1
  unfolding buried backoffs
  last_turn m e rd w f h wait =
      let (e', s, p) = first_turn m e rd [] w f wait in
      let b1 = after_pop q m [] w.broker in
      let w1 : World (MemoryBroker J) R M = record w { broker = b1; middleware = s } in
      let m1 = in_state started m in
      let letter = buried rd.failed_at m1 in
      let after = lawful.dead_letter_dies letter b1 in
      rw (p, handle_failure-given_up k rd m1 e' w1 (omega arith), serve_done k q)
        (record {
          executions = refl;
          emptied = after.waiting q ∙ waiting-after_pop_self q m [] w.broker;
          letter = letter;
          is_letter = record {
            id = refl;
            task_name = refl;
            queue = refl;
            payload = refl;
            retries = sym h;
            state = refl;
          };
          buried = after.dead q ∙ if_same m.queue q _ _ f.on_queue;
          slept = sym (append-nil w.slept);
        })

  -- The message as the first failure puts it back.
  abbrev again : Reading (MemoryBroker J) → TaskMessage J → TaskMessage J
  again rd m = retried rd.failed_at (in_state started m)

  again_left :
      (m : TaskMessage J) (rd : Reading (MemoryBroker J)) (n : ℕ)
      → m.retries + suc n ≡ m.max_retries
      → (again rd m).retries + n ≡ (again rd m).max_retries
  unfolding retried
  again_left m rd n h = omega arith

  again-IsFailing :
      (m : TaskMessage J) (e : KojinError) (rd : Reading (MemoryBroker J)) (rds : Turns k q)
      → IsFailing m e (rd ∷ rds)
      → IsFailing (again rd m) e rds
  unfolding retried
  again-IsFailing m e rd rds f = record {
    on_queue = f.on_queue;
    fails = f.fails;
    due = f.due.1;
    quiet = f.quiet.1;
  }

  Exhausted-suc :
      (m : TaskMessage J) (e : KojinError) (rd : Reading (MemoryBroker J)) (n : ℕ)
      (w w2 w' : World (MemoryBroker J) R M) (ran : List (TaskMessage J))
      → dead w2.broker q ≡ dead w.broker q
      → w2.slept ≡ w.slept ++ backoff m.retries ∷ []
      → Exhausted (again rd m) n w2 ran w'
      → Exhausted m (suc n) w (m ∷ ran) w'
  unfolding retried backoffs
  Exhausted-suc m e rd n w w2 w' ran same slept x = record {
    executions = ap suc x.executions;
    emptied = x.emptied;
    letter = x.letter;
    is_letter = record {
      id = x.is_letter.id;
      task_name = x.is_letter.task_name;
      queue = x.is_letter.queue;
      payload = x.is_letter.payload;
      retries = x.is_letter.retries;
      state = x.is_letter.state;
    };
    buried = x.buried ∙ ap (λ l. l ++ x.letter ∷ []) same;
    slept =
        x.slept
        ∙ ap (λ l. l ++ backoffs (m.retries + 1) n) slept
        ∙ append_assoc w.slept (backoff m.retries ∷ []) (backoffs (m.retries + 1) n);
  }

  -- A message that fails whenever it is executed, alone on the queue of a worker and with `n`
  -- retries left, is executed `n + 1` times in `n + 1` turns: then the queue is empty, the dead-
  -- letter queue of its queue has gained exactly the message, with its retries used up, and the
  -- sleeps in between were the backoffs of its retries in order.
  pub serve-Exhausted :
      (m : TaskMessage J) (e : KojinError) (n : ℕ) (rds : Turns k q)
      (w : World (MemoryBroker J) R M)
      → IsFailing m e rds
      → m.retries + n ≡ m.max_retries
      → length rds ≡ suc n
      → waiting w.broker q ≡ m ∷ []
      → Exhausted m n w (serve k q rds w).0 (serve k q rds w).1
  serve-Exhausted m e n [] w f h turns wait = absurd (omega arith)
  serve-Exhausted m e zero (rd ∷ []) w f h turns wait = last_turn m e rd w f (omega arith) wait
  serve-Exhausted m e zero (rd ∷ _ ∷ _) w f h turns wait = absurd (omega arith)
  serve-Exhausted m e (suc n) (rd ∷ rds) w f h turns wait =
      let (e', s, p) = first_turn m e rd rds w f wait in
      let b1 = after_pop q m [] w.broker in
      let w1 : World (MemoryBroker J) R M = record w { broker = b1; middleware = s } in
      let m1 = in_state started m in
      let w2 = requeued k rd m1 e' w1 in
      let waits = lawful.nack_waits (again rd m) (rd.meanwhile b1) in
      let f2 = again-IsFailing m e rd rds f in
      let back : waiting w2.broker q ≡ again rd m ∷ [] =
        waits.waiting q
        ∙ if_same (again rd m).queue q _ _ f2.on_queue
        ∙ ap (λ b. waiting b q ++ again rd m ∷ []) (f.quiet.0 b1)
        ∙ ap (λ l. l ++ again rd m ∷ []) (waiting-after_pop_self q m [] w.broker) in
      rw (p, handle_failure-requeued k rd m1 e' w1 (omega arith))
        (Exhausted-suc m e rd n w w2 _ _ (waits.dead q ∙ ap (λ b. dead b q) (f.quiet.0 b1)) refl
          (serve-Exhausted (again rd m) e n rds w2 f2 (again_left m rd n h) (omega arith) back))
