-- ===== src/Worker/Steps.antt =====
-- A whole chain, run by a worker on the broker in memory.
use kojin.Prelude.{
  suc, ◌≡◌, ap, ◌∙◌, String, Option, none, some, List, [], ◌∷◌, ◌++◌, length, All, if_same, arith,
  string_key,
}
use kojin.Prelude.Map
use kojin.Error.{ok}
use kojin.TaskState.{started, success}
use kojin.Message.{Stamp, TaskMessage}
use kojin.Signature.{Signature}
use kojin.Registry.{dispatch}
use kojin.Broker.{IsBroker}
use kojin.ResultBackend.{ResultBackend}
use kojin.MemoryBroker.{MemoryBroker}
use kojin.MemoryBroker.Contract.{view, waiting}
use kojin.MemoryBroker.Polling.{after_pop}
use kojin.MemoryBroker.Fifo.{waiting-after_pop_self}
use kojin.Serde.{RoundTrips}
use kojin.Worker.{chain_next, Worker, World, Reading, run_before}
use kojin.Worker.Messages.{in_state, next_message}
use kojin.Worker.Execution.{complete_group, enqueue_next, continue_chain, finish, execute_task}
use kojin.Worker.Completion.{IsDue, dispatch_of, execute_task_succeeds}
use kojin.Worker.Success.{acknowledged, on_success-finish}
use kojin.Worker.Chain.{Follows, IsPlain, IsNext, next_message-IsNext}
use kojin.Worker.Serving.{Turns, serve, serve_done, serve_first}

module _ {J C R M : Type 0} (k : Worker J C (MemoryBroker J) R M) (trips : RoundTrips k.serde) where
  -- What was executed for a message and the steps that follow it: the message, then for each step
  -- its next message, with the result of the one before.
  pub data Executed : TaskMessage J → J → List (Signature J) → List (TaskMessage J) → Type 0 where
    last : (m : TaskMessage J) (result : J) → Executed m result [] (m ∷ [])
    step :
        {m : TaskMessage J} {result : J} {sig : Signature J} {rest : List (Signature J)}
        {ran : List (TaskMessage J)} (next : TaskMessage J) (result' : J)
        → IsNext k.serde trips m.correlation_id result sig rest next
        → dispatch_of k next ≡ ok result'
        → Executed next result' rest ran
        → Executed m result (sig ∷ rest) (m ∷ ran)

  -- A step on this queue that can be run at once and returns a result.
  pub record Runs (q : String) (sig : Signature J) : Type 0 where
    pub on_queue : sig.queue ≡ q
    pub plain : IsPlain sig
    pub no_eta : sig.eta ≡ none
    pub result : J
    pub done : dispatch k.registry sig.task_name sig.payload k.context ≡ ok result

module _ {J C R M : Type 0} (k : Worker J C (MemoryBroker J) R M) (trips : RoundTrips k.serde)
    (lawful : IsBroker k.broker view) (backend : ResultBackend J R)
    (has : k.result_backend ≡ some backend)
    (hooks_pass : (m : TaskMessage J) (s : M) → (run_before k.middlewares m s).0 ≡ ok tt)
    (q : String) where
  stored : TaskMessage J → J → World (MemoryBroker J) R M → World (MemoryBroker J) R M
  stored m result w = record w { backend = (backend.store m.id result w.backend).1 }

  finish_ungrouped :
      (stamp : Stamp) (m : TaskMessage J) (result : J) (w : World (MemoryBroker J) R M)
      → m.group_id ≡ none
      → finish k stamp (some backend) m result w
        ≡ continue_chain k stamp m result (Map.get chain_next m.headers) (stored m result w)
  unfolding finish complete_group stored
  finish_ungrouped stamp m result w alone = rw (alone, complete_group)

  -- The queue after the last step is empty, after any other it holds the next message.
  continue_last :
      (stamp : Stamp) (m : TaskMessage J) (result : J) (header : Option String)
      (w : World (MemoryBroker J) R M)
      → Follows k.serde [] header
      → continue_chain k stamp m result header w ≡ w
  unfolding continue_chain
  continue_last stamp m result header w none_left = rw (none_left, continue_chain)

  continue_next :
      (stamp : Stamp) (m : TaskMessage J) (result : J) (header : Option String) (sig : Signature J)
      (rest : List (Signature J)) (w : World (MemoryBroker J) R M)
      → Follows k.serde (sig ∷ rest) header
      → continue_chain k stamp m result header w ≡ record w {
        broker = (k.broker.enqueue (next_message k.serde stamp m result sig rest) w.broker).1;
      }
  unfolding continue_chain enqueue_next
  continue_next stamp m result header sig rest w (text, at, from) =
      rw (at, continue_chain) (rw (from, enqueue_next))

  ends :
      (rd : Reading (MemoryBroker J)) (m : TaskMessage J) (result : J)
      (w : World (MemoryBroker J) R M)
      → IsDue rd.now m.eta
      → dispatch_of k m ≡ ok result
      → m.group_id ≡ none
      → (s : M) × (execute_task k rd m w ≡ (
          let m2 = in_state success (in_state started m) in
          let w2 = acknowledged k (in_state started m) result (record w { middleware = s }) in
          continue_chain k rd.stamp m2 result (Map.get chain_next m.headers) (stored m2 result w2)))
  ends rd m result w due done alone =
      let m1 = in_state started m in
      let (s, p) = execute_task_succeeds k rd w m result due (hooks_pass m1 w.middleware) done in
      let w1 : World (MemoryBroker J) R M = record w { middleware = s } in
      (
        s,
        p
            ∙ on_success-finish k backend rd.stamp m1 result w1 has
            ∙ finish_ungrouped rd.stamp (in_state success m1) result (acknowledged k m1 result w1)
                alone,
      )

  abbrev taken : (w : World (MemoryBroker J) R M) (m : TaskMessage J) → World (MemoryBroker J) R M
  taken w m = record w { broker = after_pop q m [] w.broker }

  acked_empty :
      (w : World (MemoryBroker J) R M) (m : TaskMessage J)
      → waiting (k.broker.ack m.id (taken w m).broker).1 q ≡ []
  acked_empty w m =
      (lawful.ack_queues m.id (after_pop q m [] w.broker)).waiting q
      ∙ waiting-after_pop_self q m [] w.broker

  last_step :
      (rd : Reading (MemoryBroker J)) (m : TaskMessage J) (result : J)
      (w : World (MemoryBroker J) R M)
      → Follows k.serde [] (Map.get chain_next m.headers)
      → IsDue rd.now m.eta
      → m.group_id ≡ none
      → dispatch_of k m ≡ ok result
      → waiting (execute_task k rd m (taken w m)).broker q ≡ []
  unfolding stored
  last_step rd m result w follows due alone done =
      let (s, p) = ends rd m result (taken w m) due done alone in
      rw p (rw (continue_last rd.stamp _ result _ _ follows) (acked_empty w m))

  inner_step :
      (rd : Reading (MemoryBroker J)) (m : TaskMessage J) (result : J) (sig : Signature J)
      (rest : List (Signature J)) (w : World (MemoryBroker J) R M)
      → Follows k.serde (sig ∷ rest) (Map.get chain_next m.headers)
      → IsDue rd.now m.eta
      → m.group_id ≡ none
      → dispatch_of k m ≡ ok result
      → Runs k trips q sig
      → (next : TaskMessage J) × IsNext k.serde trips m.correlation_id result sig rest next
        × (waiting (execute_task k rd m (taken w m)).broker q ≡ next ∷ [])
  unfolding stored
  inner_step rd m result sig rest w follows due alone done runs =
      let (s, p) = ends rd m result (taken w m) due done alone in
      let m2 = in_state success (in_state started m) in
      let next = next_message k.serde rd.stamp m2 result sig rest in
      let nx = next_message-IsNext k.serde trips rd.stamp m2 result sig rest runs.plain in
      let freed = (k.broker.ack m.id (taken w m).broker).1 in
      (
        next,
        nx,
        rw p (
            rw (continue_next rd.stamp _ result _ sig rest _ follows) (
              (lawful.enqueue_waits next freed).waiting q
              ∙ if_same next.queue q _ _ (nx.queue ∙ runs.on_queue)
              ∙ ap (λ l. l ++ next ∷ []) (acked_empty w m))),
      )

  IsDue-always :
      (rd : Reading (MemoryBroker J)) (m : TaskMessage J) → m.eta ≡ none → IsDue rd.now m.eta
  IsDue-always rd m e = rw e tt

  next_done :
      (next : TaskMessage J) (corr : Option String) (result : J) (sig : Signature J)
      (rest : List (Signature J)) (r : Runs k trips q sig)
      → IsNext k.serde trips corr result sig rest next
      → dispatch_of k next ≡ ok r.result
  next_done next corr result sig rest r nx = rw (nx.task_name, nx.payload) r.done

  -- Let the first message of a chain, ungrouped and without an ETA, be alone on the queue of a
  -- worker whose hooks let every message pass, and let each step be a task on this queue that
  -- returns a result. Then the worker executes the steps one after the other, in order and each
  -- once: every step gets the task, the payload and the retry limit of its signature, the
  -- correlation id of the first message and the result of the step before it, and after as many
  -- turns as there are steps the queue is empty.
  pub run_chain :
      (m : TaskMessage J) (result : J) (sigs : List (Signature J)) (rds : Turns k q)
      (w : World (MemoryBroker J) R M)
      → Follows k.serde sigs (Map.get chain_next m.headers)
      → m.eta ≡ none
      → m.group_id ≡ none
      → dispatch_of k m ≡ ok result
      → All (Runs k trips q) sigs
      → length rds ≡ suc (length sigs)
      → waiting w.broker q ≡ m ∷ []
      → Executed k trips m result sigs (serve k q rds w).0
        × (waiting (serve k q rds w).1.broker q ≡ [])
  run_chain m result [] [] w follows no_eta alone done runs turns wait = absurd (omega arith)
  run_chain m result [] (rd ∷ []) w follows no_eta alone done runs turns wait =
      rw (serve_first k q rd [] m [] w wait, serve_done k q)
        (last m result, last_step rd m result w follows (IsDue-always rd m no_eta) alone done)
  run_chain m result [] (rd ∷ _ ∷ _) w follows no_eta alone done runs turns wait =
      absurd (omega arith)
  run_chain m result (sig ∷ rest) [] w follows no_eta alone done runs turns wait =
      absurd (omega arith)
  run_chain m result (sig ∷ rest) (rd ∷ rds) w follows no_eta alone done runs turns wait =
      let (next, nx, left) =
        inner_step rd m result sig rest w follows (IsDue-always rd m no_eta) alone done runs.0 in
      let next_ok = next_done next m.correlation_id result sig rest runs.0 nx in
      let (ran, empty) =
        run_chain next runs.0.result rest rds (execute_task k rd m (taken w m)) nx.follows
          (nx.eta ∙ runs.0.no_eta) nx.ungrouped next_ok runs.1 (omega arith) left in
      rw (serve_first k q rd rds m [] w wait) (step next runs.0.result nx next_ok ran, empty)
