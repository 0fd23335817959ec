-- ===== src/Error.antt =====
-- kojin-core/src/error.rs: the error type, and `TaskResult<T>`, which is `Result<T, KojinError>`.
-- A wrapped `serde_json::Error` is its message, a `Duration` is a number of seconds.
use kojin.Prelude.{ℕ, String}

pub data KojinError : Type 0 where
  serialization broker task_not_found task_failed : String → KojinError
  timeout : ℕ → KojinError
  revoked result_backend queue_not_found codec : String → KojinError
  shutdown_in_progress : KojinError
  duplicate other : String → KojinError

pub data TaskResult {ℓ} (A : Type ℓ) : Type ℓ where
  ok : A → TaskResult A
  err : KojinError → TaskResult A

-- The operator `?`.
infixl 5 ◌>>=◌
abbrev pub ◌>>=◌ {ℓ κ} :
    {A : Type ℓ} {B : Type κ} → TaskResult A → (A → TaskResult B) → TaskResult B
ok a >>= f = f a
err e >>= f = err e
