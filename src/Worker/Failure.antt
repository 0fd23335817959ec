-- ===== src/Worker/Failure.antt =====
-- The two ends of `handle_failure`, for any broker that keeps the contract of the trait.
use kojin.Prelude.{
  ℕ, ◌+◌, ◌-◌, ◌*◌, ◌^◌, ◌<◌, ◌≤◌, ◌≡◌, ap, ◌∙◌, [], ◌∷◌, ◌++◌, min, arith, lt→ltb, le→ltb,
}
use kojin.Error.{KojinError}
use kojin.Message.{TaskMessage}
use kojin.Backoff
use kojin.Backoff.Cap.{delay_for-eq-min}
use kojin.Worker.{Worker, World, Reading, run_on_error}
use kojin.Worker.Messages.{retried, buried}
use kojin.Worker.Execution.{handle_failure}

-- The backoff of the retry with this number.
abbrev pub backoff : ℕ → ℕ
backoff retry = min (1 * 2 ^ retry) 300

module _ {J C S R M : Type 0} (k : Worker J C S R M) (rd : Reading S) (m : TaskMessage J)
    (e : KojinError) (w : World S R M) where
  -- The world after a failure that is retried.
  abbrev pub requeued : World S R M
  requeued = record {
    broker = (k.broker.nack (retried rd.failed_at m) (rd.meanwhile w.broker)).1;
    backend = w.backend;
    middleware = run_on_error k.middlewares m e w.middleware;
    slept = w.slept ++ backoff m.retries ∷ [];
  }

  -- The world after a failure that is not.
  abbrev pub given_up : World S R M
  given_up = record {
    broker = (k.broker.dead_letter (buried rd.failed_at m) w.broker).1;
    backend = w.backend;
    middleware = run_on_error k.middlewares m e w.middleware;
    slept = w.slept;
  }

  default_delay : Backoff.delay_for Backoff.default (m.retries + 1 - 1) ≡ backoff m.retries
  default_delay =
      delay_for-eq-min 1 300 (m.retries + 1 - 1) (omega arith) ∙ ap backoff (omega arith)

  pub handle_failure-requeued : m.retries < m.max_retries → handle_failure k rd m e w ≡ requeued
  unfolding handle_failure
  handle_failure-requeued h =
      rw (lt→ltb m.retries m.max_retries h)
        (ap (λ d. record requeued { slept = w.slept ++ d ∷ [] }) default_delay)

  pub handle_failure-given_up : m.max_retries ≤ m.retries → handle_failure k rd m e w ≡ given_up
  unfolding handle_failure
  handle_failure-given_up h = rw (le→ltb m.retries m.max_retries h)
