-- ===== src/Builder.antt =====
-- kojin/src/builder.rs, and the builders of `Worker` in kojin-core/src/worker.rs. A worker is not
-- shared while it is built, so `Arc::get_mut` succeeds; the error of `cron` stands for its panic.
pub mod Pipeline
use kojin.Prelude.{
  ℕ, String, Option, none, some, List, [], ◌∷◌, ◌++◌, Bool, true, false, if◌then◌else◌,
}
use kojin.Error.{TaskResult, ok, err, ◌>>=◌}
use kojin.Signature.{Signature}
use kojin.Broker.{Broker}
use kojin.ResultBackend.{ResultBackend}
use kojin.Middleware.{Middleware}
use kojin.Registry
use kojin.Registry.{Task, TaskRegistry, register}
use kojin.Serde.{Serde}
use kojin.Worker.{Worker, WorkerConfig, default_config}
use kojin.Cron
use kojin.Cron.{CronRegistry, Parsed, new_entry, add, is_empty}

-- The parts of a worker before it is built. The context `C` is a map by type in the source, of which
-- `insert` is the function that `data` is given.
pub record KojinBuilder (J C S R M Schedule : Type 0) : Type 0 where
  pub broker : Broker J S
  pub registry : TaskRegistry J C
  pub context : C
  pub middlewares : List (Middleware J M)
  pub config : WorkerConfig
  pub result_backend : Option (ResultBackend J R)
  pub cron_registry : CronRegistry J Schedule

-- A worker with the cron registry that its `run` starts the scheduler with.
pub record Built (J C S R M Schedule : Type 0) : Type 0 where
  pub worker : Worker J C S R M
  pub cron_registry : Option (CronRegistry J Schedule)

module _ {J C S R M Schedule : Type 0} where
  -- Worker::new
  abbrev pub new_worker :
      Serde J → Broker J S → TaskRegistry J C → C → WorkerConfig → Built J C S R M Schedule
  new_worker serde broker registry context config = record {
    worker = record {
      broker = broker;
      registry = registry;
      middlewares = [];
      context = context;
      config = config;
      result_backend = none;
      serde = serde;
    };
    cron_registry = none;
  }

  abbrev pub with_result_backend :
      ResultBackend J R → Built J C S R M Schedule → Built J C S R M Schedule
  with_result_backend backend b = record b {
    worker = record b.worker { result_backend = some backend };
  }

  abbrev pub with_cron_registry :
      CronRegistry J Schedule → Built J C S R M Schedule → Built J C S R M Schedule
  with_cron_registry registry b = record b { cron_registry = some registry }

  abbrev pub with_middleware : Middleware J M → Built J C S R M Schedule → Built J C S R M Schedule
  with_middleware mw b = record b {
    worker = record b.worker { middlewares = b.worker.middlewares ++ mw ∷ [] };
  }

  -- KojinBuilder::new, from a broker and an empty context
  abbrev pub new : Broker J S → C → KojinBuilder J C S R M Schedule
  new broker context = record {
    broker = broker;
    registry = Registry.new;
    context = context;
    middlewares = [];
    config = default_config;
    result_backend = none;
    cron_registry = record { entries = [] };
  }

  abbrev pub register_task :
      {T O : Type 0}
      → Task J C T O
      → KojinBuilder J C S R M Schedule
      → KojinBuilder J C S R M Schedule
  register_task t b = record b { registry = register t b.registry }

  abbrev pub data_with : (C → C) → KojinBuilder J C S R M Schedule → KojinBuilder J C S R M Schedule
  data_with insert b = record b { context = insert b.context }

  abbrev pub middleware :
      Middleware J M → KojinBuilder J C S R M Schedule → KojinBuilder J C S R M Schedule
  middleware mw b = record b { middlewares = b.middlewares ++ mw ∷ [] }

  abbrev pub concurrency : ℕ → KojinBuilder J C S R M Schedule → KojinBuilder J C S R M Schedule
  concurrency n b = record b { config = record b.config { concurrency = n } }

  abbrev pub queues :
      List String → KojinBuilder J C S R M Schedule → KojinBuilder J C S R M Schedule
  queues names b = record b { config = record b.config { queues = names } }

  abbrev pub shutdown_timeout :
      ℕ → KojinBuilder J C S R M Schedule → KojinBuilder J C S R M Schedule
  shutdown_timeout timeout b = record b { config = record b.config { shutdown_timeout = timeout } }

  abbrev pub result_backend_shared :
      ResultBackend J R → KojinBuilder J C S R M Schedule → KojinBuilder J C S R M Schedule
  result_backend_shared rb b = record b { result_backend = some rb }

  pub cron :
      (String → Parsed Schedule)
      → String
      → String
      → Signature J
      → KojinBuilder J C S R M Schedule
      → TaskResult (KojinBuilder J C S R M Schedule)
  unfolding new_entry add
  cron from_str name expression signature b =
      new_entry from_str name expression signature
      >>= (λ entry. ok (record b { cron_registry = add entry b.cron_registry }))

  -- The `for` loop of `build`, and its two tests.
  pub add_middlewares : List (Middleware J M) → Built J C S R M Schedule → Built J C S R M Schedule
  add_middlewares [] worker = worker
  add_middlewares (mw ∷ mws) worker = add_middlewares mws (with_middleware mw worker)

  pub add_result_backend :
      Option (ResultBackend J R) → Built J C S R M Schedule → Built J C S R M Schedule
  add_result_backend none worker = worker
  add_result_backend (some rb) worker = with_result_backend rb worker

  pub add_cron : CronRegistry J Schedule → Built J C S R M Schedule → Built J C S R M Schedule
  unfolding is_empty
  add_cron registry worker =
      if is_empty registry then worker else with_cron_registry registry worker

  pub build : Serde J → KojinBuilder J C S R M Schedule → Built J C S R M Schedule
  unfolding add_middlewares add_result_backend add_cron
  build serde b = add_cron b.cron_registry (
      add_result_backend b.result_backend
        (add_middlewares b.middlewares (new_worker serde b.broker b.registry b.context b.config)))
