-- ===== src/Worker/Completion.antt =====
-- How an execution of a message that is due comes down to its success or its failure.
use kojin.Prelude.{◌≤◌, ◌≡◌, refl, Option, none, some, arith}
use kojin.Error.{KojinError, TaskResult, ok, err}
use kojin.TaskState.{started}
use kojin.Message.{DateTime, TaskMessage}
use kojin.Registry.{dispatch}
use kojin.Worker.{Worker, World, Reading, run_before}
use kojin.Worker.Messages.{in_state}
use kojin.Worker.Execution.{
  handle_failure, on_success, dispatched, admitted, run_task, execute_due, execute_task,
}

-- A message without an ETA, or with one that has come.
abbrev pub IsDue : DateTime → Option DateTime → Type 0
IsDue now none = Unit
IsDue now (some eta) = eta ≤ now

abbrev pub dispatch_of : {J C S R M : Type 0} → Worker J C S R M → TaskMessage J → TaskResult J
dispatch_of k m = dispatch k.registry m.task_name m.payload k.context

abbrev pub with_middleware : {S R M : Type 0} → World S R M → M → World S R M
with_middleware w s = record w { middleware = s }

module _ {J C S R M : Type 0} (k : Worker J C S R M) (rd : Reading S) (w : World S R M) where
  execute_due-IsDue :
      (m : TaskMessage J) (eta : Option DateTime)
      → IsDue rd.now eta
      → execute_due k rd m eta w ≡ run_task k rd m w
  unfolding execute_due
  execute_due-IsDue m none h = refl
  execute_due-IsDue m (some eta) h = ground arith

  pub execute_task-IsDue :
      (m : TaskMessage J) → IsDue rd.now m.eta → execute_task k rd m w ≡ run_task k rd m w
  unfolding execute_task
  execute_task-IsDue m h = execute_due-IsDue m m.eta h

  admitted_fails :
      (m : TaskMessage J) (r : TaskResult (Unit {0})) (s : M) (e : KojinError)
      → dispatch_of k m ≡ err e
      → (e' : KojinError) × (admitted k rd m r (with_middleware w s)
          ≡ handle_failure k rd m e' (with_middleware w s))
  unfolding admitted dispatched
  admitted_fails m (err e') s e h = (e', refl)
  admitted_fails m (ok u) s e h = (e, rw (h, dispatched))

  -- If the handler fails, so does the execution, be it by the handler's error or by that of a hook
  -- that comes before.
  pub execute_task_fails :
      (m : TaskMessage J) (e : KojinError)
      → IsDue rd.now m.eta
      → dispatch_of k m ≡ err e
      → (e' : KojinError) × (s : M) × (execute_task k rd m w
          ≡ handle_failure k rd (in_state started m) e' (with_middleware w s))
  unfolding run_task
  execute_task_fails m e due h =
      let (r, s) = run_before k.middlewares (in_state started m) w.middleware in
      let (e', p) = admitted_fails (in_state started m) r s e h in
      (e', s, rw (execute_task-IsDue m due) p)

  -- If the hooks let the message pass and the handler returns a result, the execution succeeds.
  pub execute_task_succeeds :
      (m : TaskMessage J) (result : J)
      → IsDue rd.now m.eta
      → (run_before k.middlewares (in_state started m) w.middleware).0 ≡ ok tt
      → dispatch_of k m ≡ ok result
      → (s : M) × (execute_task k rd m w
          ≡ on_success k rd.stamp (in_state started m) result (with_middleware w s))
  unfolding run_task admitted dispatched
  execute_task_succeeds m result due passed h =
      let (r, s) = run_before k.middlewares (in_state started m) w.middleware in
      (s, rw (execute_task-IsDue m due, passed, h, admitted, dispatched) refl)
