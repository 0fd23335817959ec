-- ===== src/Middleware/RateLimit.antt =====
-- kojin-core/src/middleware/rate_limit.rs: a limit on the rate of executions. The limiters are those of
-- the crate governor: `Governor` makes them from a quota and waits for a token, and `L` and `K` are
-- their states, for one bucket and for one bucket under each key.
use kojin.Prelude.{ℕ, String}
use kojin.Error.{ok}
use kojin.Message.{TaskMessage}
use kojin.Broker.{Action}
use kojin.Middleware.{Middleware, default_after, default_on_error}

pub record Governor (Q L K : Type 0) : Type 0 where
  pub per_second : ℕ → Q
  pub direct : Q → L
  pub keyed : Q → K
  -- The state after the wait for a token.
  pub until_ready : L → L
  pub until_key_ready : String → K → K

pub data RateLimitInner (L K : Type 0) : Type 0 where
  global : L → RateLimitInner L K
  per_task : K → RateLimitInner L K

module _ {Q L K : Type 0} (governor : Governor Q L K) where
  -- RateLimitMiddleware::global and per_task
  global_limit : Q → RateLimitInner L K
  global_limit quota = global (governor.direct quota)

  per_task_limit : Q → RateLimitInner L K
  per_task_limit quota = per_task (governor.keyed quota)

  per_second : ℕ → RateLimitInner L K
  unfolding global_limit
  per_second n = global_limit (governor.per_second n)

  per_second_per_task : ℕ → RateLimitInner L K
  unfolding per_task_limit
  per_second_per_task n = per_task_limit (governor.per_second n)

  module _ {J : Type 0} where
    waited : TaskMessage J → RateLimitInner L K → RateLimitInner L K
    waited m (global limiter) = global (governor.until_ready limiter)
    waited m (per_task limiter) = per_task (governor.until_key_ready m.task_name limiter)

    before : TaskMessage J → Action (RateLimitInner L K) Unit
    unfolding waited
    before m s = (ok tt, waited m s)

    abbrev rate_limit_middleware : Middleware J (RateLimitInner L K)
    rate_limit_middleware = record {
      before = before;
      after = default_after;
      on_error = default_on_error;
    }
