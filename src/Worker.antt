-- ===== src/Worker.antt =====
-- kojin-core/src/worker.rs: the worker, what it is built from and what one execution reads, over the
-- broker, the result backend and the middlewares as interfaces, and the loops over its hooks. Log
-- calls are left out; where the code only logs an error, the model goes on. A sleep is recorded, in
-- seconds.
pub mod Messages
pub mod Execution
pub mod Serving
pub mod Completion
pub mod Failure
pub mod Success
pub mod Retries
pub mod Redelivery
pub mod Chord
pub mod Chain
pub mod Steps
pub mod Eta
pub mod Refusals
pub mod Tallies
pub mod Loop
use kojin.Prelude.{
  ℕ, ◌+◌, ◌-◌, String, Bool, Option, none, some, List, [], ◌∷◌, ◌++◌, ltb, nat_beq, if◌then◌else◌,
  string_key,
}
use kojin.Prelude.Map
use kojin.Error.{KojinError, TaskResult, ok, err}
use kojin.TaskState.{TaskState, started, success, retry, dead_lettered}
use kojin.Message.{TaskId, DateTime, Stamp, TaskMessage, Boxed, unbox}
use kojin.Signature.{Signature, into_message}
use kojin.Backoff
use kojin.Broker.{Action, Broker}
use kojin.ResultBackend.{ResultBackend}
use kojin.Middleware.{Middleware}
use kojin.Registry.{TaskRegistry, dispatch}
use kojin.Serde.{Serde}

-- Timeouts are in seconds.
pub record WorkerConfig : Type 0 where
  pub concurrency : ℕ
  pub queues : List String
  pub shutdown_timeout : ℕ
  pub dequeue_timeout : ℕ

-- WorkerConfig::default()
abbrev pub default_config : WorkerConfig
default_config = record {
  concurrency = 10;
  queues = "default" ∷ [];
  shutdown_timeout = 30;
  dequeue_timeout = 5;
}

-- What a worker is built from; it does not change while it runs. The cancellation token is part of
-- the state of the loop, and the cron registry is an argument of its scheduler.
pub record Worker (J C S R M : Type 0) : Type 0 where
  pub broker : Broker J S
  pub registry : TaskRegistry J C
  pub middlewares : List (Middleware J M)
  pub context : C
  pub config : WorkerConfig
  pub result_backend : Option (ResultBackend J R)
  pub serde : Serde J

-- The states behind the interfaces, and the sleeps so far.
pub record World (S R M : Type 0) : Type 0 where
  pub broker : S
  pub backend : R
  pub middleware : M
  pub slept : List ℕ

-- What one execution reads from outside: the clock at the ETA guard and at a failure, the stamp of
-- the next message of a chain, and what other tasks do to the broker during the backoff sleep.
pub record Reading (S : Type 0) : Type 0 where
  pub now : DateTime
  pub failed_at : DateTime
  pub stamp : Stamp
  pub meanwhile : S → S

-- The headers that the worker reads and writes.
abbrev pub chain_next : String
chain_next = "kojin.chain_next"

abbrev pub chain_input : String
chain_input = "kojin.chain_input"

abbrev pub group_results : String
group_results = "kojin.group_results"

abbrev pub unwrap_or {ℓ} : {A : Type ℓ} → Option A → A → A
unwrap_or none d = d
unwrap_or (some a) d = a

module _ {J M : Type 0} where
  -- The loops over the hooks: `before` stops at the first error, the others only log it.
  unfoldable pub run_before : List (Middleware J M) → TaskMessage J → Action M Unit
  run_before [] m s = (ok tt, s)
  run_before (mw ∷ mws) m s =
      let (r, s') = mw.before m s in
      let rest = run_before mws m s' in elim r [ ok u ↦ rest | err e ↦ (err e, s') ]

  unfoldable pub run_after : List (Middleware J M) → TaskMessage J → J → M → M
  run_after [] m result s = s
  run_after (mw ∷ mws) m result s = run_after mws m result (mw.after m result s).1

  pub run_on_error : List (Middleware J M) → TaskMessage J → KojinError → M → M
  run_on_error [] m e s = s
  run_on_error (mw ∷ mws) m e s = run_on_error mws m e (mw.on_error m e s).1
