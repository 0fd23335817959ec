-- ===== src/Worker/Eta.antt =====
-- A message whose ETA has not come, on the broker in memory.
use kojin.Prelude.{
  ℕ, ◌<◌, ◌≡◌, refl, ap, ◌∙◌, String, some, List, [], ◌∷◌, ◌++◌, length, replicate, All, lt→ltb,
  if_same, string_key,
}
use kojin.Message.{DateTime, TaskMessage}
use kojin.MemoryBroker.{MemoryBroker, memory_broker, ack, schedule, enqueue}
use kojin.MemoryBroker.Contract.{waiting, memory_broker-IsBroker}
use kojin.MemoryBroker.Polling.{after_pop}
use kojin.MemoryBroker.Fifo.{waiting-after_pop_self}
use kojin.Worker.{Worker, World, Reading}
use kojin.Worker.Execution.{reschedule, execute_due, execute_task}
use kojin.Worker.Serving.{Turns, serve, serve_done, serve_first}

module _ {J C S R M : Type 0} (k : Worker J C S R M) (rd : Reading S) where
  -- Nothing but the broker notices an execution before the ETA.
  pub execute_task_early :
      (m : TaskMessage J) (eta : DateTime) (w : World S R M)
      → m.eta ≡ some eta
      → rd.now < eta
      → execute_task k rd m w ≡ reschedule k m eta w
  unfolding execute_task execute_due
  execute_task_early m eta w has early =
      ap (λ o. execute_due k rd m o w) has ∙ rw (lt→ltb rd.now eta early)

module _ {J C R M : Type 0} (k : Worker J C (MemoryBroker J) R M)
    (in_memory : k.broker ≡ memory_broker) (q : String) where
  -- The hooks, the handler and the result backend have not been run.
  pub record Untouched (m : TaskMessage J) (n : ℕ) (w : World (MemoryBroker J) R M)
      (ran : List (TaskMessage J)) (w' : World (MemoryBroker J) R M) : Type 0 where
    pub turns : ran ≡ replicate n m
    pub waits : waiting w'.broker q ≡ m ∷ []
    pub backend : w'.backend ≡ w.backend
    pub middleware : w'.middleware ≡ w.middleware
    pub slept : w'.slept ≡ w.slept

  rescheduled :
      (m : TaskMessage J) (eta : DateTime) (w : World (MemoryBroker J) R M)
      → m.queue ≡ q
      → Untouched m 0 w [] (reschedule k m eta (record w { broker = after_pop q m [] w.broker }))
  unfolding reschedule
  rescheduled m eta w on_queue =
      let b = after_pop q m [] w.broker in
      rw in_memory (record {
        turns = refl;
        waits =
            unfold ack schedule enqueue in
            (memory_broker-IsBroker.enqueue_waits m b).waiting q
            ∙ if_same m.queue q _ _ on_queue
            ∙ ap (λ l. l ++ m ∷ []) (waiting-after_pop_self q m [] w.broker);
        backend = refl;
        middleware = refl;
        slept = refl;
      })

  -- The broker in memory delivers a scheduled message at once, so a worker that has nothing else to
  -- do takes a message with an ETA in the future at every turn, puts it back unchanged, and neither
  -- runs it nor sleeps, until the ETA has come.
  pub serve_spins :
      (m : TaskMessage J) (eta : DateTime) (rds : Turns k q) (w : World (MemoryBroker J) R M)
      → m.queue ≡ q
      → m.eta ≡ some eta
      → All (λ (rd : Reading (MemoryBroker J)). rd.now < eta) rds
      → waiting w.broker q ≡ m ∷ []
      → Untouched m (length rds) w (serve k q rds w).0 (serve k q rds w).1
  serve_spins m eta [] w on_queue has early wait =
      rw (serve_done k q)
        (record { turns = refl; waits = wait; backend = refl; middleware = refl; slept = refl })
  serve_spins m eta (rd ∷ rds) w on_queue has early wait =
      let first = rescheduled m eta w on_queue in
      let w' = reschedule k m eta (record w { broker = after_pop q m [] w.broker }) in
      let rest = serve_spins m eta rds w' on_queue has early.1 first.waits in
      rw
        (
          serve_first k q rd rds m [] w wait,
          execute_task_early k rd m eta (record w { broker = after_pop q m [] w.broker }) has
              early.0,
        )
        (record {
          turns = ap (◌∷◌ m) rest.turns;
          waits = rest.waits;
          backend = rest.backend ∙ first.backend;
          middleware = rest.middleware ∙ first.middleware;
          slept = rest.slept ∙ first.slept;
        })
