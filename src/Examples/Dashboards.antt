-- ===== src/Examples/Dashboards.antt =====
-- The dashboard next to the worker of the examples.
use kojin.Prelude.{
  ℕ, ◌≡◌, refl, String, Option, none, some, [], ◌∷◌, arith, if◌then◌else◌, ◌==◌, string_key,
}
use kojin.Prelude.Map
use kojin.Error.{task_failed}
use kojin.Message
use kojin.Message.{TaskId, TaskMessage}
use kojin.MemoryBroker.{MemoryBroker, memory_broker, queue_at}
use kojin.MemoryBroker.Contract
use kojin.MemoryBroker.Contract.{memory_broker-IsBroker}
use kojin.MemoryResultBackend.{MemoryResultBackend, memory_result_backend}
use kojin.MemoryResultBackend.Contract as Results
use kojin.MemoryResultBackend.Contract.{memory_result_backend-IsResultBackend}
use kojin.Middleware.Metrics.{MetricsMiddleware}
use kojin.Registry
use kojin.Worker.Messages.{in_state, buried}
use kojin.Worker.Execution.{execute_task}
use kojin.TaskState.{started}
use kojin.Dashboard.{DashboardState, json, get_task_result, get_dlq, get_queue}
use kojin.Dashboard.Lookup.{shared, get_task_result-executed}
use kojin.Dashboard.Inspection.{get_dlq-buried}
use kojin.Examples.Sample.{
  unary, unary-ShowsApart, sample_worker, hooks_pass, reading_at, empty_world, message_of,
}

abbrev dashboard : DashboardState ℕ (MemoryBroker ℕ) (MemoryResultBackend ℕ) MetricsMiddleware
dashboard = record {
  broker = memory_broker;
  result_backend = some (memory_result_backend unary);
  metrics = some (λ s. s);
}

abbrev parse : String → Option TaskId
parse t = if t == "seven" then some 7 else none

get_task_result-executed_example :
    (get_task_result dashboard parse "seven"
      (shared (execute_task sample_worker (reading_at 1) (message_of "double" 21) empty_world))).0
    ≡ json 42
unfolding Registry.dispatch Registry.register Message.new Map.get Map.insert
get_task_result-executed_example =
    get_task_result-executed dashboard (memory_result_backend unary) (Results.view unary)
      (memory_result_backend-IsResultBackend unary unary-ShowsApart) refl parse Contract.view
      sample_worker (reading_at 1) (message_of "double" 21) 42 empty_world "seven" 7
      memory_broker-IsBroker refl tt (hooks_pass _ _) refl refl

abbrev last_try : TaskMessage ℕ
last_try = Message.with_max_retries (message_of "broken" 5) 0

get_dlq-buried_example :
    ((get_dlq dashboard "default"
        (record { offset = 0; limit = 5 })
        (shared (execute_task sample_worker (reading_at 1) last_try empty_world))).0
      ≡ json (buried 1 (in_state started last_try) ∷ []))
    × ((get_queue dashboard "default"
          (shared (execute_task sample_worker (reading_at 1) last_try empty_world))).0
        ≡ json (record { name = "default"; length = 0; dlq_length = 1 }))
unfolding Registry.dispatch Registry.register Message.new Message.with_max_retries Map.get
    Map.insert queue_at
get_dlq-buried_example =
    get_dlq-buried dashboard refl sample_worker (reading_at 1) last_try (task_failed "broken")
      empty_world 4 refl tt refl (omega arith)
