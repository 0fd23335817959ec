-- ===== src/Worker/Refusals.antt =====
-- A message that a `before` hook refuses, and what the deduplication refuses.
use kojin.Prelude.{string_key, ◌≡◌, refl, ap, String, some, [], ◌∷◌, ℕ}
use kojin.Prelude.Map.{Distinct}
use kojin.Error.{KojinError, ok, err, duplicate}
use kojin.TaskState.{started}
use kojin.Message.{DateTime, TaskMessage}
use kojin.Middleware.Dedup.{DeduplicationMiddleware, before, dedup_middleware}
use kojin.Middleware.Dedup.Once.{Within, run, passes_once}
use kojin.Worker.{Worker, World, Reading, run_before}
use kojin.Worker.Messages.{in_state, retried}
use kojin.Worker.Execution.{handle_failure, admitted, run_task, execute_task}
use kojin.Worker.Completion.{IsDue, execute_task-IsDue, with_middleware}

module _ {J C S R M : Type 0} (k : Worker J C S R M) (rd : Reading S) (w : World S R M) where
  -- The handler is not run.
  pub execute_task_refused :
      (m : TaskMessage J) (e : KojinError) (s : M)
      → IsDue rd.now m.eta
      → run_before k.middlewares (in_state started m) w.middleware ≡ (err e, s)
      → execute_task k rd m w ≡ handle_failure k rd (in_state started m) e (with_middleware w s)
  unfolding run_task admitted
  execute_task_refused m e s due refused =
      rw (execute_task-IsDue k rd w m due, refused, admitted) refl

module _ {J : Type 0} where
  run_before-dedup :
      (now : ℕ) (m : TaskMessage J) (s s' : DeduplicationMiddleware) (e : KojinError)
      → before now m s ≡ (err e, s')
      → run_before (dedup_middleware now ∷ []) m s ≡ (err e, s')
  unfolding run_before
  run_before-dedup now m s s' e h = rw (ap (λ p. p.0) h, run_before) (ap (λ p. (err e, p.1)) h)

-- With the deduplication middleware, the retry of a message that has a key is refused as a duplicate
-- of its own first execution, as long as the key lives: whatever its handler would return now, it is
-- not run, and the retry counts as a failure of the task.
pub execute_task-retried :
    {J C S R : Type 0} (k : Worker J C S R DeduplicationMiddleware) (rd : Reading S) (key : String)
    (from now at : DateTime) (m : TaskMessage J) (s : DeduplicationMiddleware)
    (w : World S R DeduplicationMiddleware)
    → k.middlewares ≡ dedup_middleware now ∷ []
    → Distinct s.seen
    → m.dedup_key ≡ some key
    → (before from m s).0 ≡ ok tt
    → Within from s.ttl now
    → w.middleware ≡ (before from m s).1
    → IsDue rd.now m.eta
    → execute_task k rd (retried at m) w
      ≡ handle_failure k rd (in_state started (retried at m)) (duplicate key) w
unfolding retried run
execute_task-retried k rd key from now at m s w hooks distinct keyed passed within since due =
    execute_task_refused k rd w (retried at m) (duplicate key) w.middleware due (
      rw (hooks, since)
        (run_before-dedup now (in_state started (retried at m)) (before from m s).1
          (before from m s).1 (duplicate key)
          (passes_once key from now m (in_state started (retried at m)) [] s distinct keyed keyed
            passed tt within)))
