-- ===== src/Examples/Rabbit.antt =====
-- A concrete RabbitMQ server, a worker on it whose task fails, and its dead-letter queue.
use kojin.Prelude.{
  ℕ, ◌≡◌, refl, String, Bool, true, false, Option, none, some, List, [], ◌∷◌, replicate,
  if◌then◌else◌, ◌==◌, string_key, if_same,
}
use kojin.Prelude.Map
use kojin.Prelude.Int.{as_i32, negsuc}
use kojin.Error.{ok, task_failed}
use kojin.Remote.{Reply, done}
use kojin.Worker.Redelivery.{Endless, rounds}
use kojin.Amqp.Config
use kojin.Amqp.Config.{AmqpConfig, with_max_priority}
use kojin.Amqp.Calls.{Lapin, View, Documented, Delivery, long_string, short_uint}
use kojin.Amqp.Topology.{dlq_name, queue_args}
use kojin.Amqp.{AmqpBroker, amqp_broker, dlq_messages}
use kojin.Amqp.Redelivery.{Ready, wake, requeued_forever}
use kojin.Amqp.Inspection.{dlq_messages-replicate}
use kojin.Broker.{Broker}
use kojin.Examples.Remotes.{broken, message_serde, worker_on, world_on, reading, broken-IsFailing}

record Rabbit : Type 0 where
  queues : String → List String
  out : Option (String × String)

abbrev update : String → List String → (String → List String) → String → List String
update q l f r = if q == r then l else f r

abbrev first_of : String → List String → Rabbit → Option Delivery × Rabbit
first_of q [] w = (none, w)
first_of q (payload ∷ rest) w = (
  some (record { delivery_tag = 1; payload = payload }),
  record { queues = update q rest w.queues; out = some (q, payload) },
)

abbrev put_back : Bool → Option (String × String) → Rabbit → Rabbit
put_back requeue none w = w
put_back true (some (q, payload)) w = record {
  queues = update q (payload ∷ w.queues q) w.queues;
  out = none;
}
put_back false (some (q, payload)) w = record w { out = none }

abbrev as_event : Option Delivery → Option (Reply Delivery)
as_event none = none
as_event (some d) = some (done d)

abbrev consumed_queue : String
consumed_queue = "kojin.queue.default"

abbrev rabbit : Lapin Rabbit
rabbit = record {
  connect = λ url w. (done tt, w);
  create_channel = λ w. (done 3, w);
  probe_channel = λ url w. (done 4, w);
  exchange_declare = λ ch name kind args w. (done tt, w);
  queue_declare = λ ch name passive args w. (done 0, w);
  queue_bind = λ ch queue exchange key w. (done tt, w);
  basic_qos = λ ch n w. (done tt, w);
  basic_consume = λ ch queue tag w. (done tt, w);
  basic_publish = λ ch p w. (done tt, w);
  basic_ack = λ ch tag w. (done tt, record w { out = none });
  basic_nack = λ ch tag requeue w. (done tt, put_back requeue w.out w);
  basic_get = λ ch queue w. let (d, w') = first_of queue (w.queues queue) w in (done d, w');
  next =
      λ ch w. let (d, w') = first_of consumed_queue (w.queues consumed_queue) w in (as_event d, w');
  now_v7 = λ w. "id";
  utc_now_millis = λ w. 0;
}

abbrev rabbit_view : View Rabbit
rabbit_view = record {
  ready = λ w q. w.queues q;
  unacked = λ w ch tag. w.out;
  queue_of = λ ch. consumed_queue;
}

rabbit-Documented : Documented rabbit rabbit_view
rabbit-Documented = record {
  channel_lem = λ w. (3, w, refl, λ q. refl);
  next_lem = λ ch payload rest w h. (
    1,
    (first_of consumed_queue (payload ∷ rest) w).1,
    rw h refl,
    refl,
    if_same consumed_queue consumed_queue rest (w.queues consumed_queue) refl,
  );
  get_lem = λ ch q payload rest w h.
      (1, (first_of q (payload ∷ rest) w).1, rw h refl, refl, if_same q q rest (w.queues q) refl);
  requeue_lem = λ ch tag q payload w h. (
    put_back true (some (q, payload)) w,
    rw h refl,
    if_same q q (payload ∷ w.queues q) (w.queues q) refl,
  );
}

abbrev config : AmqpConfig
config = Config.new "amqp://localhost"

abbrev on_rabbit : Broker ℕ (AmqpBroker ℕ Rabbit)
on_rabbit = amqp_broker rabbit message_serde config

abbrev state_with : (String → List String) → AmqpBroker ℕ Rabbit
state_with queues = record {
  server = record { queues = queues; out = none };
  publish_channel = 1;
  deliveries = Map.empty;
  rx = [];
  cancelled = false;
  consuming = "default" ∷ [];
}

abbrev one_waits : AmqpBroker ℕ Rabbit
one_waits = state_with (update consumed_queue ("m" ∷ []) (λ q. []))

requeued_forever_example :
    Endless
      (worker_on on_rabbit)
      "default"
      (wake rabbit rabbit_view message_serde config 3 broken "m" ∷ [])
      broken
      (Ready rabbit rabbit_view message_serde config 3 broken "m")
      2
      (world_on one_waits)
      (rounds
        (worker_on on_rabbit)
        "default"
        (wake rabbit rabbit_view message_serde config 3 broken "m" ∷ [])
        (reading ∷ reading ∷ [])
        (world_on one_waits)).0
      (rounds
        (worker_on on_rabbit)
        "default"
        (wake rabbit rabbit_view message_serde config 3 broken "m" ∷ [])
        (reading ∷ reading ∷ [])
        (world_on one_waits)).1
unfolding Config.new
requeued_forever_example =
    requeued_forever rabbit rabbit_view message_serde config 3 broken "m" rabbit-Documented refl
      "default" (worker_on on_rabbit) refl (task_failed "broken") (reading ∷ reading ∷ [])
      (world_on one_waits)
      (broken-IsFailing on_rabbit (wake rabbit rabbit_view message_serde config 3 broken "m" ∷ []))
      (record { waits = refl; buffer = refl; running = refl })

abbrev two_dead : AmqpBroker ℕ Rabbit
two_dead = state_with (update "kojin.dlq.default" ("m" ∷ "n" ∷ []) (λ q. []))

dlq_messages-replicate_example :
    ((dlq_messages rabbit message_serde config "default" 1 2 two_dead).0 ≡ ok (replicate 2 broken))
    × (rabbit_view.ready
          (dlq_messages rabbit message_serde config "default" 1 2 two_dead).1.server
          (dlq_name "default")
        ≡ "m" ∷ "n" ∷ [])
unfolding dlq_name
dlq_messages-replicate_example =
    dlq_messages-replicate rabbit rabbit_view rabbit-Documented message_serde config "default" "m"
      ("n" ∷ []) broken 1 2 two_dead refl refl

-- A delay of 25 days is sent as a negative number of milliseconds.
long_delay : as_i32 2_160_000_000 ≡ negsuc 2_134_967_295
unfolding as_i32
long_delay = refl

priority_args :
    queue_args (with_max_priority config 12) "q"
    ≡ ("x-dead-letter-exchange", long_string "kojin.dlx")
      ∷ ("x-dead-letter-routing-key", long_string "q")
      ∷ ("x-max-priority", short_uint 10)
      ∷ []
unfolding queue_args with_max_priority Config.new
priority_args = refl
