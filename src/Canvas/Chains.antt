-- ===== src/Canvas/Chains.antt =====
-- A submitted chain, up to its end on a worker.
use kojin.Prelude.{
  suc, ◌≡◌, refl, ap, ◌∙◌, String, none, some, List, [], ◌∷◌, ◌++◌, length, All, if_same,
  string_key,
}
use kojin.Prelude.Map
use kojin.Prelude.Map.{get-insert_self}
use kojin.Error.{TaskResult, ok}
use kojin.Message.{TaskMessage}
use kojin.Signature.{Signature, into_message}
use kojin.Serde.{RoundTrips}
use kojin.Broker.{Broker, IsBroker}
use kojin.ResultBackend.{ResultBackend}
use kojin.MemoryBroker.{MemoryBroker}
use kojin.MemoryBroker.Contract.{view, waiting}
use kojin.Serde.{Serde}
use kojin.Worker.{chain_next, Worker, World, run_before}
use kojin.Worker.Messages.{set_header}
use kojin.Worker.Completion.{dispatch_of}
use kojin.Worker.Chain.{Follows, IsPlain}
use kojin.Worker.Serving.{Turns, serve}
use kojin.Worker.Steps.{Executed, Runs, run_chain}
use kojin.Canvas.{
  chain, Canvases, WorkflowHandle, Fresh, flatten_chain, correlated, store_rest, submit_first,
  submit, apply_chain, apply_inner, apply,
}

module _ {J : Type 0} (serde : Serde J) (trips : RoundTrips serde) (fresh : Fresh) where
  -- The message that a chain starts with: the task of its first step, followed by the other steps.
  pub record IsFirst (sig : Signature J) (rest : List (Signature J)) (m : TaskMessage J)
      : Type 0 where
    pub task_name : m.task_name ≡ sig.task_name
    pub queue : m.queue ≡ sig.queue
    pub payload : m.payload ≡ sig.payload
    pub max_retries : m.max_retries ≡ sig.max_retries
    pub eta : m.eta ≡ sig.eta
    pub ungrouped : m.group_id ≡ none
    pub correlation : m.correlation_id ≡ some fresh.correlation_id
    pub follows : Follows serde rest (Map.get chain_next m.headers)

  store_rest-IsFirst :
      (sig : Signature J) (rest : List (Signature J))
      → IsPlain sig
      → (m : TaskMessage J) × (store_rest serde rest
            (correlated fresh.correlation_id (into_message (fresh.stamp 0) sig))
          ≡ ok m)
        × IsFirst sig rest m
  unfolding store_rest correlated into_message
  store_rest-IsFirst sig [] plain = (
    correlated fresh.correlation_id (into_message (fresh.stamp 0) sig),
    refl,
    record {
      task_name = refl;
      queue = refl;
      payload = refl;
      max_retries = refl;
      eta = refl;
      ungrouped = refl;
      correlation = refl;
      follows = plain;
    },
  )
  store_rest-IsFirst sig (s ∷ rest) plain =
      let (text, to, from) = trips.signatures (s ∷ rest) in
      (
        set_header chain_next text
            (correlated fresh.correlation_id (into_message (fresh.stamp 0) sig)),
        rw (to, store_rest) refl,
        record {
          task_name = refl;
          queue = refl;
          payload = refl;
          max_retries = refl;
          eta = refl;
          ungrouped = refl;
          correlation = refl;
          follows = (text, get-insert_self chain_next text sig.headers, from);
        },
      )

module _ {J S R : Type 0} (broker : Broker J S) (backend : ResultBackend J R) (serde : Serde J)
    (fresh : Fresh) where
  apply_chain-lem :
      (steps : Canvases J) (sig : Signature J) (rest : List (Signature J)) (m : TaskMessage J)
      (b : S) (r : R)
      → flatten_chain steps ≡ sig ∷ rest
      → store_rest serde rest (correlated fresh.correlation_id (into_message (fresh.stamp 0) sig))
        ≡ ok m
      → (broker.enqueue m b).0 ≡ ok tt
      → apply broker backend serde fresh (chain steps) b r ≡ (
        ok (record { id = fresh.correlation_id; task_ids = m.id ∷ [] }),
        (broker.enqueue m b).1,
        r,
      )
  unfolding apply apply_inner apply_chain submit_first submit
  apply_chain-lem steps sig rest m b r flat stored accepted =
      rw (flat, apply_chain) (rw (stored, submit_first) (rw (accepted) refl))

module _ {J C R M : Type 0} (k : Worker J C (MemoryBroker J) R M) (trips : RoundTrips k.serde)
    (lawful : IsBroker k.broker view) (backend : ResultBackend J R)
    (has : k.result_backend ≡ some backend)
    (hooks_pass : (m : TaskMessage J) (s : M) → (run_before k.middlewares m s).0 ≡ ok tt)
    (q : String) where
  -- A submitted chain has run to its end.
  pub record Completed (fresh : Fresh) (sig : Signature J) (rest : List (Signature J)) (result : J)
      (done : TaskResult WorkflowHandle) (ran : List (TaskMessage J))
      (w' : World (MemoryBroker J) R M) : Type 0 where
    pub first : TaskMessage J
    pub is_first : IsFirst k.serde trips fresh sig rest first
    pub handle : done ≡ ok (record { id = fresh.correlation_id; task_ids = first.id ∷ [] })
    pub executed : Executed k trips first result rest ran
    pub emptied : waiting w'.broker q ≡ []

  -- Once submitted, a chain of runnable steps, nested in chains as it may be, is executed to its end
  -- by a worker on its queue, one step for each turn: `apply` returns a handle with the id of the
  -- first message, which carries the correlation id of the handle, and every step gets the result of
  -- the step before it and the same correlation id.
  pub apply-Completed :
      (fresh : Fresh) (steps : Canvases J) (sig : Signature J) (rest : List (Signature J))
      (rds : Turns k q) (w : World (MemoryBroker J) R M) (r : Runs k trips q sig)
      → flatten_chain steps ≡ sig ∷ rest
      → All (Runs k trips q) rest
      → length rds ≡ suc (length rest)
      → waiting w.broker q ≡ []
      → let (done, b, rb) = apply k.broker backend k.serde fresh (chain steps) w.broker w.backend in
        let (ran, w') = serve k q rds (record w { broker = b; backend = rb }) in
        Completed fresh sig rest r.result done ran w'
  apply-Completed fresh steps sig rest rds w r flat runs turns empty =
      let (m, stored, is) = store_rest-IsFirst k.serde trips fresh sig rest r.plain in
      let b = (k.broker.enqueue m w.broker).1 in
      let wait : waiting b q ≡ m ∷ [] =
        (lawful.enqueue_waits m w.broker).waiting q
        ∙ if_same m.queue q _ _ (is.queue ∙ r.on_queue)
        ∙ ap (λ l. l ++ m ∷ []) empty in
      let done : dispatch_of k m ≡ ok r.result = rw (is.task_name, is.payload) r.done in
      let (ran, emptied) =
        run_chain k trips lawful backend has hooks_pass q m r.result rest rds
          (record w { broker = b }) is.follows (is.eta ∙ r.no_eta) is.ungrouped done runs turns
          wait in
      rw
        (apply_chain-lem k.broker backend k.serde fresh steps sig rest m w.broker w.backend flat
          stored (lawful.enqueue_ok m w.broker))
        (record { first = m; is_first = is; handle = refl; executed = ran; emptied = emptied })
