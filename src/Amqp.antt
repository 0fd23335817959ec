-- ===== src/Amqp.antt =====
-- kojin-amqp/src/broker.rs: the broker on RabbitMQ and its operations. `Config` has its configuration,
-- `Calls` those of the crate lapin and `Topology` the exchanges and queues. A background consumer
-- is the step of its loop; the buffer between consumers and `dequeue` is not bounded. Log calls are
-- left out.
pub mod Config
pub mod Calls
pub mod Topology
pub mod Inspection
pub mod Redelivery
use Prim.Native.String.{◌++◌ as ◌+++◌}
use kojin.Prelude.{
  ℕ, ◌+◌, ◌-◌, ◌*◌, zero, suc, String, Bool, true, false, Option, none, some, List, [], ◌∷◌, ◌++◌,
  ltb, if◌then◌else◌, ◌==◌, ◌||◌, string_key, nat_key,
}
use kojin.Prelude.Map
use kojin.Prelude.Map.{Map}
use kojin.Prelude.Int.{as_i32}
use kojin.Error.{KojinError, TaskResult, ok, err}
use kojin.Message.{TaskId, DateTime, TaskMessage}
use kojin.Broker.{Action, Broker}
use kojin.Remote.{Reply, done, failed, Call, broker_err}
use kojin.Action.{continue, lift}
use kojin.Serde.{MessageSerde}
use Config.{AmqpConfig}
use Calls.{Lapin, Channel, Delivery, Publish, long_int}
use Topology.{queue_name, dlq_name, declare_topology, answered}

pub record AmqpBroker (J W : Type 0) : Type 0 where
  pub server : W
  pub publish_channel : Channel
  -- The channel and the delivery tag of each message that was consumed and not yet settled.
  pub deliveries : Map TaskId (Channel × ℕ)
  -- The messages in the channel from the consumers to `dequeue`, oldest first.
  pub rx : List (TaskMessage J)
  pub cancelled : Bool
  pub consuming : List String

-- consuming.contains(queue)
abbrev pub consumes : String → List String → Bool
consumes queue [] = false
consumes queue (q ∷ qs) = q == queue || consumes queue qs

module _ {J W : Type 0} where
  -- call.await.map_err(broker_err)
  abbrev pub asked : {A : Type 0} → Call W A → Action (AmqpBroker J W) A
  asked call b = let (r, w) = call b.server in (broker_err r, record b { server = w })

  pub forget : TaskId → AmqpBroker J W → AmqpBroker J W
  forget id b = record b { deliveries = Map.remove id b.deliveries }

  shutdown : AmqpBroker J W → AmqpBroker J W
  shutdown b = record b { cancelled = true }

  -- rx.recv(), or the timeout where `wakes`, what happens while the call waits, has come to its end.
  unfoldable pub dequeue :
      List String
      → List (AmqpBroker J W → AmqpBroker J W)
      → Action (AmqpBroker J W) (Option (TaskMessage J))
  dequeue queues [] b = elim b.rx [
    | [] ↦ (ok none, b)
    | m ∷ rest ↦ (ok (some m), record b { rx = rest })
  ]
  dequeue queues (act ∷ wakes) b =
      let waited = dequeue queues wakes (act b) in
      elim b.rx [ [] ↦ waited | m ∷ rest ↦ (ok (some m), record b { rx = rest }) ]

  pub list_queues : Action (AmqpBroker J W) (List String)
  list_queues b = (ok b.consuming, b)

  -- What is left of a broker that could not be set up is the server.
  started : TaskResult (Unit {0}) × AmqpBroker J W → TaskResult (AmqpBroker J W) × W
  started (ok u, b) = (ok b, b.server)
  started (err e, b) = (err e, b.server)

module _ {J W : Type 0} (lapin : Lapin W) (serde : MessageSerde J) (config : AmqpConfig) where
  -- A consumer that starts for a queue; its loop is `consume`.
  pub start_consumer : String → Action (AmqpBroker J W) Unit
  start_consumer queue b = continue (asked lapin.create_channel b) λ channel b1.
      continue (asked (lapin.basic_qos channel config.prefetch_count) b1) λ u b2.
        let consumer_tag = "kojin-" +++ queue +++ "-" +++ lapin.now_v7 b2.server in
        continue (asked (lapin.basic_consume channel (queue_name queue) consumer_tag) b2)
          λ v b3. (ok tt, record b3 { consuming = b3.consuming ++ queue ∷ [] })

  pub ensure_consumer : String → Action (AmqpBroker J W) Unit
  unfolding start_consumer
  ensure_consumer queue b =
      if consumes queue b.consuming then (ok tt, b) else start_consumer queue b

  pub ensure_consumers : List String → Action (AmqpBroker J W) Unit
  unfolding ensure_consumer
  ensure_consumers [] b = (ok tt, b)
  ensure_consumers (queue ∷ queues) b =
      continue (ensure_consumer queue b) λ u b1. ensure_consumers queues b1

  -- What a consumer does with a delivery.
  pub delivered : Channel → Delivery → TaskResult (TaskMessage J) → AmqpBroker J W → AmqpBroker J W
  delivered ch d (ok m) b = record b {
    deliveries = Map.insert m.id (ch, d.delivery_tag) b.deliveries;
    rx = b.rx ++ m ∷ [];
  }
  delivered ch d (err e) b = record b {
    server = (lapin.basic_nack ch d.delivery_tag false b.server).1;
  }

  -- One turn of a consumer's loop, and whether there is another one.
  pub consumed : Channel → Option (Reply Delivery) → AmqpBroker J W → Bool × AmqpBroker J W
  unfolding delivered
  consumed ch none b = (false, b)
  consumed ch (some (failed e)) b = (false, b)
  consumed ch (some (done d)) b = (true, delivered ch d (serde.from_text d.payload) b)

  pub consume : Channel → AmqpBroker J W → Bool × AmqpBroker J W
  unfolding consumed
  consume ch b =
      let (event, w) = lapin.next ch b.server in
      if b.cancelled then (false, b) else consumed ch event (record b { server = w })

  pub enqueue : TaskMessage J → Action (AmqpBroker J W) Unit
  enqueue m b = continue (lift (serde.to_text m) b) λ payload b1.
      asked
        (lapin.basic_publish b1.publish_channel (record {
          exchange = config.exchange;
          routing_key = m.queue;
          payload = payload;
          priority = m.priority;
          headers = [];
        }))
        b1

  pub ack : TaskId → Action (AmqpBroker J W) Unit
  unfolding forget
  ack id b = elim (Map.get id b.deliveries) [
    | none ↦ (ok tt, b)
    | some (channel, tag) ↦ asked (lapin.basic_ack channel tag) (forget id b)
  ]

  -- basic_nack for `nack` and for `dead_letter`.
  pub reject : Bool → TaskId → Action (AmqpBroker J W) Unit
  unfolding forget
  reject requeue id b = elim (Map.get id b.deliveries) [
    | none ↦ (ok tt, b)
    | some (channel, tag) ↦ asked (lapin.basic_nack channel tag requeue) (forget id b)
  ]

  pub nack : TaskMessage J → Action (AmqpBroker J W) Unit
  unfolding reject
  nack m = reject true m.id

  -- Without requeuing, the server routes the message to the dead-letter exchange.
  pub dead_letter : TaskMessage J → Action (AmqpBroker J W) Unit
  unfolding reject
  dead_letter m = reject false m.id

  -- The delay is in milliseconds; an ETA falls on a full second.
  pub schedule : TaskMessage J → DateTime → Action (AmqpBroker J W) Unit
  schedule m eta b =
      let delay_ms = eta * 1000 - lapin.utc_now_millis b.server in
      continue (lift (serde.to_text m) b) λ payload b1.
        asked
          (lapin.basic_publish b1.publish_channel (record {
            exchange = config.delayed_exchange;
            routing_key = m.queue;
            payload = payload;
            priority = none;
            headers = ("x-delay", long_int (as_i32 delay_ms)) ∷ [];
          }))
          b1

  -- The count that a passive declaration answers.
  pub count_of : String → Action (AmqpBroker J W) ℕ
  count_of name b =
      continue (asked lapin.create_channel b)
        λ channel b1. asked (lapin.queue_declare channel name true []) b1

  pub queue_len : String → Action (AmqpBroker J W) ℕ
  unfolding count_of
  queue_len queue = count_of (queue_name queue)

  pub dlq_len : String → Action (AmqpBroker J W) ℕ
  unfolding count_of
  dlq_len queue = count_of (dlq_name queue)

  -- Keep the message, if it can be read.
  pub kept : TaskResult (TaskMessage J) → List (TaskMessage J) → List (TaskMessage J)
  kept (err e) messages = messages
  kept (ok m) messages = messages ++ m ∷ []

  -- The turns of the loop of `dlq_messages`: to skip the first ones, then to keep the others. After
  -- each the message is requeued.
  pub inspect :
      Channel
      → String
      → ℕ
      → ℕ
      → List (TaskMessage J)
      → Action (AmqpBroker J W) (List (TaskMessage J))
  unfolding kept
  inspect channel name zero zero messages b = (ok messages, b)
  inspect channel name (suc skip) limit messages b =
      continue (asked (lapin.basic_get channel name) b) λ got b1. elim got [
        | none ↦ (ok messages, b1)
        | some d ↦
            continue (asked (lapin.basic_nack channel d.delivery_tag true) b1)
              λ u b2. inspect channel name skip limit messages b2
      ]
  inspect channel name zero (suc limit) messages b =
      continue (asked (lapin.basic_get channel name) b) λ got b1. elim got [
        | none ↦ (ok messages, b1)
        | some d ↦
            continue (asked (lapin.basic_nack channel d.delivery_tag true) b1)
              λ u b2. inspect channel name zero limit (kept (serde.from_text d.payload) messages) b2
      ]

  pub dlq_messages : String → ℕ → ℕ → Action (AmqpBroker J W) (List (TaskMessage J))
  unfolding inspect
  dlq_messages queue offset limit b =
      continue (asked lapin.create_channel b)
        λ channel b1. inspect channel (dlq_name queue) offset limit [] b1

  abbrev pub amqp_broker : Broker J (AmqpBroker J W)
  amqp_broker = record {
    enqueue = enqueue;
    dequeue = dequeue;
    ack = ack;
    nack = nack;
    dead_letter = dead_letter;
    schedule = schedule;
    queue_len = queue_len;
    dlq_len = dlq_len;
    list_queues = list_queues;
    dlq_messages = dlq_messages;
  }

  -- AmqpBroker::new
  pub new : List String → W → TaskResult (AmqpBroker J W) × W
  unfolding ensure_consumers started
  new queues w = continue (answered (lapin.connect config.url) w) λ u w1.
      continue (answered lapin.create_channel w1) λ publish_channel w2.
        continue (answered lapin.create_channel w2) λ setup_channel w3.
          continue (declare_topology lapin setup_channel config queues w3) λ v w4. started (
            ensure_consumers queues (record {
              server = w4;
              publish_channel = publish_channel;
              deliveries = Map.empty;
              rx = [];
              cancelled = false;
              consuming = [];
            }))
