-- ===== src/Examples/RedisQueues.antt =====
-- The broker on Redis at a concrete server.
use kojin.Prelude.{ℕ, ◌≡◌, refl, true, some, List, [], ◌∷◌, string_key, arith}
use kojin.Prelude.Text.{remove_all, contains, strip_prefix, is_empty}
use kojin.Error.{ok}
use kojin.Message
use kojin.Message.{TaskMessage}
use kojin.Redis.Keys
use kojin.Redis.Keys.{scheduled, queue, processing, dedup}
use kojin.Redis.Broker.{RedisBroker, poll_scheduled}
use kojin.Redis.Broker.Scheduled.{Moved, poll_scheduled-Moved}
use kojin.Redis.Broker.Fifo.{Plain, enqueue_all, serve_all, serve_all-enqueue_all}
use kojin.Serde.{MessageSerde}
use kojin.Examples.Sample.{unary, message_of}
use kojin.Error.{task_failed}
use kojin.Worker.Execution.{execute_task}
use kojin.Registry
use kojin.Prelude.Map
use kojin.Redis.Broker.{redis_broker}
use kojin.Redis.Broker.Dedup.{Dropped, retry_lost}
use kojin.Examples.Remotes.{worker_on, world_on, reading}
use kojin.Examples.RedisServer.{
  Redis, redis, put, empty, redis_view, redis-ScriptsDocumented, redis-ListsDocumented,
  redis-DedupDocumented,
}

abbrev broker : RedisBroker
broker = record { keys = record { prefix = "kojin" }; worker_id = "w"; dedup_ttl = 300 }

abbrev first : TaskMessage ℕ
first = message_of "double" 1

abbrev serde : MessageSerde ℕ
serde = record { to_text = λ m. ok "1111111"; from_text = λ s. ok first }

abbrev two : List (TaskMessage ℕ)
two = first ∷ first ∷ []

first-Plain :
    Plain redis serde (λ s. "default") unary broker redis_view redis-ListsDocumented "default" first
unfolding Message.new contains unary strip_prefix is_empty
first-Plain = record {
  on_queue = refl;
  no_key = refl;
  text = "1111111";
  written = refl;
  read = refl;
  names_id = refl;
}

serve_all-enqueue_all_example :
    let w = enqueue_all redis serde (λ s. "default") unary broker two empty in
    let (served, w') = serve_all redis serde (λ s. "default") unary broker 5 2 "default" w in
    (served ≡ two)
    × (w'.lists (queue broker.keys "default") ≡ [])
    × (w'.lists (Keys.processing broker.keys "w") ≡ [])
serve_all-enqueue_all_example =
    serve_all-enqueue_all redis serde (λ s. "default") unary broker redis_view redis-ListsDocumented
      "default" 5 two empty (first-Plain, (first-Plain, tt)) refl

abbrev planned : Redis
planned = record empty {
  sorted = put "kojin:scheduled" (("a", 3) ∷ ("b", 9) ∷ ("c", 11) ∷ []) empty.sorted;
}

poll_scheduled-Moved_example :
    (n : ℕ) × (w' : Redis) × (poll_scheduled redis serde (λ s. "default") unary broker planned
      ≡ (ok n, w'))
    × Moved redis_view (λ item. queue broker.keys "default") (scheduled broker.keys) 10 planned n w'
unfolding remove_all scheduled
poll_scheduled-Moved_example =
    poll_scheduled-Moved redis redis_view redis-ScriptsDocumented serde (λ s. "default") unary
      broker planned refl

-- A message that always fails, with a deduplication key.
abbrev keyed : TaskMessage ℕ
keyed = record first { fields = record first.fields { task_name = "broken"; dedup_key = some "k" } }

abbrev running : Redis
running = record empty {
  lists = put "kojin:processing:w" ("1111111" ∷ "x" ∷ []) empty.lists;
  flags = put "kojin:dedup:k" true empty.flags;
}

retry_lost_example :
    Dropped redis redis_view
      (λ w. w.flags)
      redis-DedupDocumented
      serde
      (λ s. "default")
      unary
      broker
      ("x" ∷ [])
      running
      (execute_task
        (worker_on (redis_broker redis serde (λ s. "default") unary broker 5))
        reading
        keyed
        (world_on running)).broker
unfolding Message.new contains unary strip_prefix is_empty Registry.dispatch Registry.register
    Map.get Map.insert processing dedup
retry_lost_example =
    retry_lost redis redis_view (λ w. w.flags) redis-DedupDocumented serde (λ s. "default") unary
      broker 5 (worker_on (redis_broker redis serde (λ s. "default") unary broker 5)) refl
      (task_failed "broken") reading keyed ("x" ∷ []) (world_on running) tt refl (omega arith)
      (record {
        text = "1111111";
        first = refl;
        names_id = refl;
        key = "k";
        keyed = refl;
        set = refl;
      })
