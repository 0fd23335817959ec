-- ===== src/Worker/Execution.antt =====
-- kojin-core/src/worker.rs, `execute_task` and `handle_failure`: one execution of a dequeued message,
-- branch by branch.
use kojin.Prelude.{
  ℕ, ◌-◌, String, Option, none, some, List, [], ◌∷◌, ◌++◌, ltb, nat_beq, if◌then◌else◌, string_key,
}
use kojin.Prelude.Map
use kojin.Error.{KojinError, TaskResult, ok, err}
use kojin.TaskState.{started, success}
use kojin.Message.{DateTime, Stamp, TaskMessage, Boxed, unbox}
use kojin.Signature.{Signature}
use kojin.Backoff
use kojin.ResultBackend.{ResultBackend}
use kojin.Registry.{dispatch}
use kojin.Worker.{
  Worker, World, Reading, chain_next, unwrap_or, run_before, run_after, run_on_error,
}
use kojin.Worker.Messages.{in_state, retried, buried, with_results, next_message}

module _ {J C S R M : Type 0} where
  unfoldable pub handle_failure :
      Worker J C S R M → Reading S → TaskMessage J → KojinError → World S R M → World S R M
  unfolding run_on_error retried buried
  handle_failure k rd message error w =
      let w' = record w { middleware = run_on_error k.middlewares message error w.middleware } in
      if ltb message.retries message.max_retries
      then (let message' = retried rd.failed_at message in
          record w' {
            slept = w'.slept ++ Backoff.delay_for Backoff.default (message'.retries - 1) ∷ [];
            broker = (k.broker.nack message' (rd.meanwhile w'.broker)).1;
          })
      else record w' { broker = (k.broker.dead_letter (buried rd.failed_at message) w'.broker).1 }

  unfoldable pub enqueue_callback :
      Worker J C S R M → ResultBackend J R → String → Option (Boxed J) → World S R M → World S R M
  unfolding with_results
  enqueue_callback k backend group_id none w = w
  enqueue_callback k backend group_id (some chord_callback) w =
      let (results, r') = backend.get_group_results group_id w.backend in
      let callback_msg = with_results results k.serde (unbox chord_callback) in
      record w { backend = r'; broker = (k.broker.enqueue callback_msg w.broker).1 }

  -- The branch on what `complete_group_member` returned.
  unfoldable pub group_completed :
      Worker J C S R M
      → ResultBackend J R
      → String
      → TaskMessage J
      → TaskResult ℕ
      → World S R M
      → World S R M
  unfolding enqueue_callback
  group_completed k backend group_id message (err e) w = w
  group_completed k backend group_id message (ok completed) w =
      if nat_beq completed (unwrap_or message.group_total 0)
      then enqueue_callback k backend group_id message.chord_callback w
      else w

  unfoldable pub complete_group :
      Worker J C S R M
      → ResultBackend J R
      → Option String
      → TaskMessage J
      → J
      → World S R M
      → World S R M
  unfolding group_completed
  complete_group k backend none message result w = w
  complete_group k backend (some group_id) message result w =
      let (completed, r') = backend.complete_group_member group_id message.id result w.backend in
      group_completed k backend group_id message completed (record w { backend = r' })

  -- The branch on what the header `kojin.chain_next` decodes to.
  unfoldable pub enqueue_next :
      Worker J C S R M
      → Stamp
      → TaskMessage J
      → J
      → TaskResult (List (Signature J))
      → World S R M
      → World S R M
  unfolding next_message
  enqueue_next k stamp message result (err e) w = w
  enqueue_next k stamp message result (ok []) w = w
  enqueue_next k stamp message result (ok (sig ∷ rest)) w =
      let next_msg = next_message k.serde stamp message result sig rest in
      record w { broker = (k.broker.enqueue next_msg w.broker).1 }

  unfoldable pub continue_chain :
      Worker J C S R M → Stamp → TaskMessage J → J → Option String → World S R M → World S R M
  unfolding enqueue_next
  continue_chain k stamp message result none w = w
  continue_chain k stamp message result (some json) w =
      enqueue_next k stamp message result (k.serde.signatures_from_str json) w

  -- What follows the acknowledgement; without a result backend it is nothing.
  unfoldable pub finish :
      Worker J C S R M
      → Stamp
      → Option (ResultBackend J R)
      → TaskMessage J
      → J
      → World S R M
      → World S R M
  unfolding complete_group continue_chain
  finish k stamp none message result w = w
  finish k stamp (some backend) message result w =
      let stored = record w { backend = (backend.store message.id result w.backend).1 } in
      let grouped = complete_group k backend message.group_id message result stored in
      continue_chain k stamp message result (Map.get chain_next message.headers) grouped

  -- The branch of a task that returned a result.
  unfoldable pub on_success :
      Worker J C S R M → Stamp → TaskMessage J → J → World S R M → World S R M
  unfolding run_after finish
  on_success k stamp message result w =
      let done = in_state success message in
      finish k stamp k.result_backend done result (record w {
        middleware = run_after k.middlewares message result w.middleware;
        broker = (k.broker.ack message.id w.broker).1;
      })

  -- The match on the result of the handler.
  unfoldable pub dispatched :
      Worker J C S R M → Reading S → TaskMessage J → TaskResult J → World S R M → World S R M
  unfolding on_success handle_failure
  dispatched k rd message (ok result) w = on_success k rd.stamp message result w
  dispatched k rd message (err e) w = handle_failure k rd message e w

  -- The match on the result of the `before` hooks.
  unfoldable pub admitted :
      Worker J C S R M
      → Reading S
      → TaskMessage J
      → TaskResult (Unit {0})
      → World S R M
      → World S R M
  unfolding dispatched handle_failure
  admitted k rd message (err e) w = handle_failure k rd message e w
  admitted k rd message (ok u) w =
      dispatched k rd message (dispatch k.registry message.task_name message.payload k.context) w

  unfoldable pub run_task : Worker J C S R M → Reading S → TaskMessage J → World S R M → World S R M
  unfolding run_before admitted
  run_task k rd message w =
      let message' = in_state started message in
      let (r, s) = run_before k.middlewares message' w.middleware in
      admitted k rd message' r (record w { middleware = s })

  -- The ETA guard: a message that is not due is acknowledged and scheduled again.
  unfoldable pub reschedule :
      Worker J C S R M → TaskMessage J → DateTime → World S R M → World S R M
  reschedule k message eta w =
      let acked = (k.broker.ack message.id w.broker).1 in
      record w { broker = (k.broker.schedule message eta acked).1 }

  unfoldable pub execute_due :
      Worker J C S R M → Reading S → TaskMessage J → Option DateTime → World S R M → World S R M
  unfolding reschedule run_task
  execute_due k rd message none w = run_task k rd message w
  execute_due k rd message (some eta) w =
      if ltb rd.now eta then reschedule k message eta w else run_task k rd message w

  unfoldable pub execute_task :
      Worker J C S R M → Reading S → TaskMessage J → World S R M → World S R M
  unfolding execute_due
  execute_task k rd message w = execute_due k rd message message.eta w
