-- ===== src/Worker/Tallies.antt =====
-- What the metrics middleware has counted after an execution.
use kojin.Prelude.{ℕ, ◌≡◌, refl, ◌∙◌, String, Option, none, some, List, [], ◌∷◌, arith, string_key}
use kojin.Prelude.Map
use kojin.Error.{KojinError, TaskResult, ok, err}
use kojin.TaskState.{started}
use kojin.Message.{Stamp, TaskMessage, Boxed}
use kojin.Signature.{Signature}
use kojin.ResultBackend.{ResultBackend}
use kojin.Middleware.Metrics
use kojin.Middleware.Metrics.{MetricsMiddleware, metrics_middleware, fetch_add_one}
use kojin.Worker.{chain_next, Worker, World, Reading, run_before, run_after, run_on_error}
use kojin.Worker.Messages.{in_state}
use kojin.Worker.Execution.{
  enqueue_callback, group_completed, complete_group, enqueue_next, continue_chain, finish,
  on_success, handle_failure, dispatched, admitted, run_task, execute_task,
}
use kojin.Worker.Completion.{IsDue, dispatch_of, execute_task-IsDue}

module _ {J C S R M : Type 0} (k : Worker J C S R M) where
  -- After the hooks, a success leaves the middlewares alone.
  enqueue_callback-middleware :
      (backend : ResultBackend J R) (g : String) (cb : Option (Boxed J)) (w : World S R M)
      → (enqueue_callback k backend g cb w).middleware ≡ w.middleware
  unfolding enqueue_callback
  enqueue_callback-middleware backend g none w = refl
  enqueue_callback-middleware backend g (some cb) w = refl

  group_completed-middleware :
      (backend : ResultBackend J R) (g : String) (m : TaskMessage J) (r : TaskResult ℕ)
      (w : World S R M)
      → (group_completed k backend g m r w).middleware ≡ w.middleware
  unfolding group_completed
  group_completed-middleware backend g m (err e) w = refl
  group_completed-middleware backend g m (ok n) w =
      ground (arith, enqueue_callback-middleware backend g m.chord_callback w)

  complete_group-middleware :
      (backend : ResultBackend J R) (g : Option String) (m : TaskMessage J) (result : J)
      (w : World S R M)
      → (complete_group k backend g m result w).middleware ≡ w.middleware
  unfolding complete_group
  complete_group-middleware backend none m result w = refl
  complete_group-middleware backend (some g) m result w = group_completed-middleware backend g m _ _

  enqueue_next-middleware :
      (stamp : Stamp) (m : TaskMessage J) (result : J) (sigs : TaskResult (List (Signature J)))
      (w : World S R M)
      → (enqueue_next k stamp m result sigs w).middleware ≡ w.middleware
  unfolding enqueue_next
  enqueue_next-middleware stamp m result (err e) w = refl
  enqueue_next-middleware stamp m result (ok []) w = refl
  enqueue_next-middleware stamp m result (ok (sig ∷ rest)) w = refl

  continue_chain-middleware :
      (stamp : Stamp) (m : TaskMessage J) (result : J) (header : Option String) (w : World S R M)
      → (continue_chain k stamp m result header w).middleware ≡ w.middleware
  unfolding continue_chain
  continue_chain-middleware stamp m result none w = refl
  continue_chain-middleware stamp m result (some json) w =
      enqueue_next-middleware stamp m result _ w

  finish-middleware :
      (stamp : Stamp) (o : Option (ResultBackend J R)) (m : TaskMessage J) (result : J)
      (w : World S R M)
      → (finish k stamp o m result w).middleware ≡ w.middleware
  unfolding finish
  finish-middleware stamp none m result w = refl
  finish-middleware stamp (some backend) m result w =
      continue_chain-middleware stamp m result (Map.get chain_next m.headers) _
      ∙ complete_group-middleware backend m.group_id m result _

  handle_failure-middleware :
      (rd : Reading S) (m : TaskMessage J) (e : KojinError) (w : World S R M)
      → (handle_failure k rd m e w).middleware ≡ run_on_error k.middlewares m e w.middleware
  unfolding handle_failure
  handle_failure-middleware rd m e w = ground arith

module _ {J : Type 0} where
  -- The counters after an execution that began at `s` and ended with `r`.
  pub tallied : TaskResult J → MetricsMiddleware → MetricsMiddleware
  tallied (ok result) s = record s {
    tasks_started = fetch_add_one s.tasks_started;
    tasks_succeeded = fetch_add_one s.tasks_succeeded;
  }
  tallied (err e) s = record s {
    tasks_started = fetch_add_one s.tasks_started;
    tasks_failed = fetch_add_one s.tasks_failed;
  }

module _ {J C S R : Type 0} (k : Worker J C S R MetricsMiddleware)
    (counts : k.middlewares ≡ metrics_middleware ∷ []) where
  dispatched-tallied :
      (rd : Reading S) (m : TaskMessage J) (r : TaskResult J) (w : World S R MetricsMiddleware)
      (s : MetricsMiddleware)
      → w.middleware ≡ record s { tasks_started = fetch_add_one s.tasks_started }
      → (dispatched k rd m r w).middleware ≡ tallied r s
  unfolding dispatched tallied on_success run_after run_on_error Metrics.after Metrics.on_error
  dispatched-tallied rd m (ok result) w s e =
      finish-middleware k rd.stamp k.result_backend _ result _ ∙ rw (counts, run_after, e) refl
  dispatched-tallied rd m (err e') w s e =
      handle_failure-middleware k rd m e' w ∙ rw (counts, run_on_error, e) refl

  hooks_count :
      (m : TaskMessage J) (s : MetricsMiddleware)
      → run_before k.middlewares m s
        ≡ (ok tt, record s { tasks_started = fetch_add_one s.tasks_started })
  unfolding run_before Metrics.before
  hooks_count m s = rw (counts, run_before) refl

  -- With the metrics middleware, an execution of a message that is due counts one more started task,
  -- and one more that succeeded or one more that failed, after what the handler returned and never
  -- both; the counters are `u64` and wrap around.
  pub execute_task-tallied :
      (rd : Reading S) (m : TaskMessage J) (w : World S R MetricsMiddleware)
      → IsDue rd.now m.eta
      → (execute_task k rd m w).middleware ≡ tallied (dispatch_of k m) w.middleware
  unfolding run_task admitted
  execute_task-tallied rd m w due = rw (execute_task-IsDue k rd w m due) (
      rw (hooks_count (in_state started m) w.middleware, admitted)
        (dispatched-tallied rd (in_state started m) (dispatch_of k m) _ w.middleware refl))
