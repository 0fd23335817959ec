-- ===== src/Dashboard/Lookup.antt =====
-- What the dashboard answers about the result of a task that a worker has executed.
use kojin.Prelude.{◌≡◌, refl, ap, ◌∙◌, String, Option, some, if◌then◌else◌, ◌==◌, nat_key, arith}
use kojin.Error.{ok}
use kojin.TaskState.{started}
use kojin.Message.{TaskId, TaskMessage}
use kojin.Broker
use kojin.Broker.{IsBroker}
use kojin.ResultBackend
use kojin.ResultBackend.{ResultBackend, IsResultBackend}
use kojin.Worker.{Worker, World, Reading, run_before}
use kojin.Worker.Messages.{in_state}
use kojin.Worker.Execution.{execute_task}
use kojin.Worker.Completion.{IsDue, dispatch_of}
use kojin.Worker.Success.{execute_task_settles}
use kojin.Dashboard.{DashboardState, Shared, json, found, lookup, looked_up, get_task_result}

-- What a worker's world shows to the dashboard.
abbrev pub shared : {S R M : Type 0} → World S R M → Shared S R M
shared w = record { broker = w.broker; backend = w.backend; middleware = w.middleware }

module _ {J S R M : Type 0} (d : DashboardState J S R M) (backend : ResultBackend J R)
    (rv : ResultBackend.View J R) (stores : IsResultBackend backend rv)
    (has : d.result_backend ≡ some backend) (parse : String → Option TaskId) where
  -- With a backend that keeps its contract, the answer is the result in the view.
  get_task_result-found :
      (t : String) (j : TaskId) (w : Shared S R M)
      → parse t ≡ some j
      → (get_task_result d parse t w).0 ≡ found d (ok (rv.result w.backend j))
  unfolding get_task_result looked_up lookup
  get_task_result-found t j w read =
      rw (has, read, looked_up, lookup, stores.get_lem j w.backend) refl

  -- After a worker has executed a task successfully, the dashboard answers a request for the id of
  -- the task with the result of its handler, and a request for any other id as before.
  pub get_task_result-executed :
      {C : Type 0} (bv : Broker.View J S) (k : Worker J C S R M) (rd : Reading S)
      (m : TaskMessage J) (result : J) (w : World S R M) (t : String) (j : TaskId)
      → IsBroker k.broker bv
      → k.result_backend ≡ some backend
      → IsDue rd.now m.eta
      → (run_before k.middlewares (in_state started m) w.middleware).0 ≡ ok tt
      → dispatch_of k m ≡ ok result
      → parse t ≡ some j
      → (get_task_result d parse t (shared (execute_task k rd m w))).0
        ≡ (if m.id == j then json result else (get_task_result d parse t (shared w)).0)
  unfolding found
  get_task_result-executed bv k rd m result w t j lawful same due passed done read =
      let settled =
        (execute_task_settles k backend bv rv lawful stores rd m result w same due passed done).1 in
      get_task_result-found t j (shared (execute_task k rd m w)) read
      ∙ ap (λ (o : Option J). found d (ok o)) (settled j)
      ∙ ground (arith, get_task_result-found t j (shared w) read)
