-- ===== src/Middleware.antt =====
-- kojin-core/src/middleware/mod.rs: the trait `Middleware`, as the record of its hooks over a state
-- `M` that the middlewares of one worker share.
pub mod Metrics
pub mod Dedup
pub mod RateLimit
use kojin.Error.{KojinError, ok}
use kojin.Message.{TaskMessage}
use kojin.Broker.{Action}

pub record Middleware (J M : Type 0) : Type 0 where
  pub before : TaskMessage J → Action M (Unit {0})
  pub after : TaskMessage J → J → Action M (Unit {0})
  pub on_error : TaskMessage J → KojinError → Action M (Unit {0})

-- The bodies that the trait gives to the hooks: they let the task pass.
module _ {J M : Type 0} where
  unfoldable pub default_before : TaskMessage J → Action M Unit
  default_before m s = (ok tt, s)

  unfoldable pub default_after : TaskMessage J → J → Action M Unit
  default_after m result s = (ok tt, s)

  unfoldable pub default_on_error : TaskMessage J → KojinError → Action M Unit
  default_on_error m e s = (ok tt, s)
