-- ===== src/Worker/Success.antt =====
-- What an execution that succeeds leaves behind: the id acknowledged and the result stored, whatever
-- the group and the chain of the message add.
use kojin.Prelude.{
  ℕ, ◌≡◌, refl, ◌∙◌, String, Option, none, some, List, [], ◌∷◌, arith, nat_key, string_key,
}
use kojin.Prelude.Map
use kojin.Error.{TaskResult, ok, err}
use kojin.TaskState.{started, success}
use kojin.Message.{Stamp, TaskMessage, Boxed}
use kojin.Signature.{Signature}
use kojin.Broker
use kojin.Broker.{KeepsHeld, LetsGo, IsBroker}
use kojin.ResultBackend
use kojin.ResultBackend.{ResultBackend, SameResults, ResultSet, IsResultBackend}
use kojin.Worker.{chain_next, Worker, World, Reading, run_before, run_after}
use kojin.Worker.Messages.{in_state}
use kojin.Worker.Execution.{
  enqueue_callback, group_completed, complete_group, enqueue_next, continue_chain, finish,
  on_success, execute_task,
}
use kojin.Worker.Completion.{IsDue, dispatch_of, execute_task_succeeds}

-- The world between the acknowledgement and the result backend.
abbrev pub acknowledged :
    {J C S R M : Type 0} → Worker J C S R M → TaskMessage J → J → World S R M → World S R M
acknowledged k m result w = record w {
  middleware = run_after k.middlewares m result w.middleware;
  broker = (k.broker.ack m.id w.broker).1;
}

module _ {J C S R M : Type 0} (k : Worker J C S R M) (backend : ResultBackend J R) where
  pub on_success-finish :
      (stamp : Stamp) (m : TaskMessage J) (result : J) (w : World S R M)
      → k.result_backend ≡ some backend
      → on_success k stamp m result w
        ≡ finish k stamp (some backend) (in_state success m) result (acknowledged k m result w)
  unfolding on_success
  on_success-finish stamp m result w has = rw has

module _ {J C S R M : Type 0} (k : Worker J C S R M) (backend : ResultBackend J R)
    (bv : Broker.View J S) (rv : ResultBackend.View J R) (lawful : IsBroker k.broker bv)
    (stores : IsResultBackend backend rv) where
  -- The results and what is held are as they were.
  record Keeps (w w' : World S R M) : Type 0 where
    results : SameResults rv w.backend w'.backend
    held : KeepsHeld bv w.broker w'.broker

  Keeps-refl : (w : World S R M) → Keeps w w
  Keeps-refl w = record { results = λ j. refl; held = λ j. refl }

  Keeps-trans : {w1 w2 w3 : World S R M} → Keeps w1 w2 → Keeps w2 w3 → Keeps w1 w3
  Keeps-trans a b = record {
    results = λ j. b.results j ∙ a.results j;
    held = λ j. b.held j ∙ a.held j;
  }

  enqueue_callback-Keeps :
      (g : String) (cb : Option (Boxed J)) (w : World S R M)
      → Keeps w (enqueue_callback k backend g cb w)
  unfolding enqueue_callback
  enqueue_callback-Keeps g none w = Keeps-refl w
  enqueue_callback-Keeps g (some cb) w = record {
    results = λ j. rw stores.results_same;
    held = λ j. lawful.enqueue_held _ w.broker j;
  }

  group_completed-Keeps :
      (g : String) (m : TaskMessage J) (r : TaskResult ℕ) (w : World S R M)
      → Keeps w (group_completed k backend g m r w)
  unfolding group_completed
  group_completed-Keeps g m (err e) w = Keeps-refl w
  group_completed-Keeps g m (ok n) w =
      ground (arith, Keeps-refl w, enqueue_callback-Keeps g m.chord_callback w)

  complete_group-Keeps :
      (g : Option String) (m : TaskMessage J) (result : J) (w : World S R M)
      → Keeps w (complete_group k backend g m result w)
  unfolding complete_group
  complete_group-Keeps none m result w = Keeps-refl w
  complete_group-Keeps (some g) m result w =
      let (n, r') = backend.complete_group_member g m.id result w.backend in
      let w' : World S R M = record w { backend = r' } in
      let counted : Keeps w w' = record {
        results = stores.complete_result g m.id result w.backend;
        held = λ j. refl;
      } in
      Keeps-trans counted (group_completed-Keeps g m n w')

  enqueue_next-Keeps :
      (stamp : Stamp) (m : TaskMessage J) (result : J) (sigs : TaskResult (List (Signature J)))
      (w : World S R M)
      → Keeps w (enqueue_next k stamp m result sigs w)
  unfolding enqueue_next
  enqueue_next-Keeps stamp m result (err e) w = Keeps-refl w
  enqueue_next-Keeps stamp m result (ok []) w = Keeps-refl w
  enqueue_next-Keeps stamp m result (ok (sig ∷ rest)) w = record {
    results = λ j. refl;
    held = λ j. lawful.enqueue_held _ w.broker j;
  }

  continue_chain-Keeps :
      (stamp : Stamp) (m : TaskMessage J) (result : J) (header : Option String) (w : World S R M)
      → Keeps w (continue_chain k stamp m result header w)
  unfolding continue_chain
  continue_chain-Keeps stamp m result none w = Keeps-refl w
  continue_chain-Keeps stamp m result (some json) w = enqueue_next-Keeps stamp m result _ w

  finish-Keeps :
      (stamp : Stamp) (m : TaskMessage J) (result : J) (w : World S R M)
      → Keeps
          (record w { backend = (backend.store m.id result w.backend).1 })
          (finish k stamp (some backend) m result w)
  unfolding finish
  finish-Keeps stamp m result w =
      let stored : World S R M = record w { backend = (backend.store m.id result w.backend).1 } in
      Keeps-trans (complete_group-Keeps m.group_id m result stored)
        (continue_chain-Keeps stamp m result (Map.get chain_next m.headers) _)

  on_success_settles :
      (stamp : Stamp) (m : TaskMessage J) (result : J) (w : World S R M)
      → k.result_backend ≡ some backend
      → LetsGo bv m.id w.broker (on_success k stamp m result w).broker
        × ResultSet rv m.id (some result) w.backend (on_success k stamp m result w).backend
  on_success_settles stamp m result w has =
      let kept = finish-Keeps stamp (in_state success m) result (acknowledged k m result w) in
      rw (on_success-finish k backend stamp m result w has) (
        λ j. kept.held j ∙ lawful.ack_lets_go m.id w.broker j,
        λ j. kept.results j ∙ stores.store_result m.id result w.backend j,
      )

  -- An execution that succeeds acknowledges the message and stores its result: afterwards nobody
  -- holds its id, its result is the one that the handler returned, and what is held and stored under
  -- every other id is as before, whatever group or chain the message belongs to.
  pub execute_task_settles :
      (rd : Reading S) (m : TaskMessage J) (result : J) (w : World S R M)
      → k.result_backend ≡ some backend
      → IsDue rd.now m.eta
      → (run_before k.middlewares (in_state started m) w.middleware).0 ≡ ok tt
      → dispatch_of k m ≡ ok result
      → LetsGo bv m.id w.broker (execute_task k rd m w).broker
        × ResultSet rv m.id (some result) w.backend (execute_task k rd m w).backend
  execute_task_settles rd m result w has due passed done =
      let (s, p) = execute_task_succeeds k rd w m result due passed done in
      rw p
        (on_success_settles rd.stamp (in_state started m) result (record w { middleware = s }) has)
