-- ===== src/Examples/Sample.antt =====
-- A worker with two tasks, one that doubles a number and one that fails, over the broker and the
-- result backend in memory and the metrics middleware; and messages for it.
use Prim.Native.String.{[] as nil, ◌∷◌ as ◌∷ₛ◌}
use kojin.Prelude.{ℕ, zero, suc, ◌+◌, ◌≡◌, refl, ap, String, some, [], ◌∷◌, arith}
use kojin.Error.{ok, err, task_failed}
use kojin.Message
use kojin.Message.{TaskId, Stamp, TaskMessage}
use kojin.MemoryBroker
use kojin.MemoryBroker.{MemoryBroker, memory_broker, enqueue}
use kojin.MemoryResultBackend
use kojin.MemoryResultBackend.{MemoryResultBackend, memory_result_backend}
use kojin.MemoryResultBackend.Contract.{ShowsApart}
use kojin.Middleware.Metrics
use kojin.Middleware.Metrics.{MetricsMiddleware, metrics_middleware}
use kojin.Registry
use kojin.Registry.{Task, TaskRegistry, register}
use kojin.Worker.{default_config, Worker, World, Reading, run_before}
use kojin.Examples.Codec.{number_serde}

-- A concrete `Display` of ids that tells them apart.
unfoldable pub unary : TaskId → String
unary zero = nil
unary (suc n) = "1" ∷ₛ unary n

tail : String → String
tail nil = nil
tail (c ∷ₛ s) = s

has_head : String → ℕ
has_head nil = 0
has_head (c ∷ₛ s) = 1

pub unary-ShowsApart : ShowsApart unary
unfolding unary tail has_head
unary-ShowsApart zero zero e = refl
unary-ShowsApart zero (suc j) e = absurd (omega (arith, ap has_head e))
unary-ShowsApart (suc i) zero e = absurd (omega (arith, ap has_head e))
unary-ShowsApart (suc i) (suc j) e = ap suc (unary-ShowsApart i j (ap tail e))

abbrev pub double_task : Task ℕ Unit ℕ ℕ
double_task = record {
  name = "double";
  queue = "default";
  max_retries = 3;
  from_value = λ payload. ok payload;
  to_value = λ n. ok n;
  output_to_value = λ n. ok n;
  run = λ n ctx. ok (n + n);
}

abbrev pub broken_task : Task ℕ Unit ℕ ℕ
broken_task = record double_task { name = "broken"; run = λ n ctx. err (task_failed "broken") }

abbrev pub sample_registry : TaskRegistry ℕ Unit
sample_registry = register broken_task (register double_task Registry.new)

abbrev pub SampleWorker : Type 0
SampleWorker = Worker ℕ Unit (MemoryBroker ℕ) (MemoryResultBackend ℕ) MetricsMiddleware

abbrev pub SampleWorld : Type 0
SampleWorld = World (MemoryBroker ℕ) (MemoryResultBackend ℕ) MetricsMiddleware

abbrev pub sample_worker : SampleWorker
sample_worker = record {
  broker = memory_broker;
  registry = sample_registry;
  middlewares = metrics_middleware ∷ [];
  context = tt;
  config = record default_config { concurrency = 2 };
  result_backend = some (memory_result_backend unary);
  serde = number_serde;
}

pub hooks_pass :
    (m : TaskMessage ℕ) (s : MetricsMiddleware)
    → (run_before sample_worker.middlewares m s).0 ≡ ok tt
unfolding run_before Metrics.before
hooks_pass m s = refl

abbrev pub reading_at : ℕ → Reading (MemoryBroker ℕ)
reading_at now = record {
  now = now;
  failed_at = now;
  stamp = record { id = now; now = now };
  meanwhile = λ b. b;
}

abbrev pub empty_world : SampleWorld
empty_world = record {
  broker = MemoryBroker.new;
  backend = MemoryResultBackend.new;
  middleware = Metrics.new;
  slept = [];
}

-- The world in which one message waits.
abbrev pub world_with : TaskMessage ℕ → SampleWorld
world_with m = record empty_world { broker = (enqueue m MemoryBroker.new).1 }

abbrev pub message_of : String → ℕ → TaskMessage ℕ
message_of task payload = Message.new (record { id = 7; now = 1 }) task "default" payload
