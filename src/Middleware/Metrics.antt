-- ===== src/Middleware/Metrics.antt =====
-- kojin-core/src/middleware/metrics.rs: three `AtomicU64` counters, which wrap around.
use kojin.Prelude.{ℕ, ◌+◌, ◌%◌}
use kojin.Error.{KojinError, ok}
use kojin.Message.{TaskMessage}
use kojin.Message.Hash.{u64_mod}
use kojin.Broker.{Action}
use kojin.Middleware.{Middleware}

pub record MetricsMiddleware : Type 0 where
  pub tasks_started : ℕ
  pub tasks_succeeded : ℕ
  pub tasks_failed : ℕ

abbrev pub new : MetricsMiddleware
new = record { tasks_started = 0; tasks_succeeded = 0; tasks_failed = 0 }

-- fetch_add(1)
abbrev pub fetch_add_one : ℕ → ℕ
fetch_add_one n = (n + 1) % u64_mod

module _ {J : Type 0} where
  unfoldable pub before : TaskMessage J → Action MetricsMiddleware Unit
  before m s = (ok tt, record s { tasks_started = fetch_add_one s.tasks_started })

  unfoldable pub after : TaskMessage J → J → Action MetricsMiddleware Unit
  after m result s = (ok tt, record s { tasks_succeeded = fetch_add_one s.tasks_succeeded })

  unfoldable pub on_error : TaskMessage J → KojinError → Action MetricsMiddleware Unit
  on_error m e s = (ok tt, record s { tasks_failed = fetch_add_one s.tasks_failed })

  abbrev pub metrics_middleware : Middleware J MetricsMiddleware
  metrics_middleware = record { before = before; after = after; on_error = on_error }
