-- ===== src/Examples/Builders.antt =====
-- The theorem on the builder at a pipeline of two middlewares.
use kojin.Prelude.{ℕ, ◌≡◌}
use kojin.MemoryBroker.{MemoryBroker, memory_broker}
use kojin.MemoryResultBackend.{MemoryResultBackend}
use kojin.Middleware.Metrics
use kojin.Middleware.Metrics.{MetricsMiddleware, metrics_middleware}
use kojin.Worker.{run_before, run_after}
use kojin.Builder
use kojin.Builder.{KojinBuilder, middleware, build}
use kojin.Builder.Pipeline.{then_before, build-middleware}
use kojin.Examples.Codec.{number_serde}
use kojin.Examples.Sample.{message_of}

abbrev one_hook :
    KojinBuilder ℕ (Unit {0}) (MemoryBroker ℕ) (MemoryResultBackend ℕ) MetricsMiddleware (Unit {0})
one_hook = middleware metrics_middleware (Builder.new memory_broker tt)

build-middleware_example :
    let with = (build number_serde (middleware metrics_middleware one_hook)).worker.middlewares in
    let without = (build number_serde one_hook).worker.middlewares in
    (run_before with (message_of "double" 1) Metrics.new
      ≡ then_before metrics_middleware
          (message_of "double" 1)
          (run_before without (message_of "double" 1) Metrics.new))
    × (run_after with (message_of "double" 1) 2 Metrics.new
        ≡ (metrics_middleware.after
            (message_of "double" 1)
            2
            (run_after without (message_of "double" 1) 2 Metrics.new)).1)
build-middleware_example =
    build-middleware number_serde metrics_middleware one_hook (message_of "double" 1) 2 Metrics.new
