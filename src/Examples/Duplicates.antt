-- ===== src/Examples/Duplicates.antt =====
-- The theorem on refused retries at a worker with the deduplication middleware.
use kojin.Prelude.{ℕ, ◌≡◌, refl, [], ◌∷◌, arith, string_key}
use kojin.Prelude.Map
use kojin.Error.{duplicate}
use kojin.TaskState.{started}
use kojin.Message
use kojin.Message.{TaskMessage}
use kojin.MemoryBroker
use kojin.MemoryBroker.{MemoryBroker}
use kojin.MemoryResultBackend
use kojin.MemoryResultBackend.{MemoryResultBackend}
use kojin.Middleware.Dedup
use kojin.Middleware.Dedup.{DeduplicationMiddleware, before, dedup_middleware}
use kojin.Worker.{Worker, World}
use kojin.Worker.Messages.{in_state, retried}
use kojin.Worker.Execution.{handle_failure, execute_task}
use kojin.Worker.Refusals.{execute_task-retried}
use kojin.Examples.Sample.{sample_worker, reading_at, message_of}

abbrev dedup_worker :
    Worker ℕ (Unit {0}) (MemoryBroker ℕ) (MemoryResultBackend ℕ) DeduplicationMiddleware
dedup_worker = record {
  broker = sample_worker.broker;
  registry = sample_worker.registry;
  middlewares = dedup_middleware 12 ∷ [];
  context = tt;
  config = sample_worker.config;
  result_backend = sample_worker.result_backend;
  serde = sample_worker.serde;
}

abbrev keyed_message : TaskMessage ℕ
keyed_message = Message.with_dedup_key (message_of "double" 1) "k"

-- The world after the first execution at the time 10, with a time to live of 300.
abbrev failed_once : World (MemoryBroker ℕ) (MemoryResultBackend ℕ) DeduplicationMiddleware
failed_once = record {
  broker = MemoryBroker.new;
  backend = MemoryResultBackend.new;
  middleware = (before 10 keyed_message (Dedup.new 300)).1;
  slept = 1 ∷ [];
}

execute_task-retried_example :
    execute_task dedup_worker (reading_at 12) (retried 11 keyed_message) failed_once
    ≡ handle_failure dedup_worker
        (reading_at 12)
        (in_state started (retried 11 keyed_message))
        (duplicate "k")
        failed_once
unfolding before Message.new Message.with_dedup_key Map.get
execute_task-retried_example =
    execute_task-retried dedup_worker (reading_at 12) "k" 10 12 11 keyed_message (Dedup.new 300)
      failed_once refl tt refl refl (omega arith, omega arith) refl tt
