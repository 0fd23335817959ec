-- ===== src/Amqp/Calls.antt =====
-- The calls of kojin-amqp/src to the crate lapin, with the arguments that the code gives them. What
-- the crate and the RabbitMQ server do is a parameter of the model. A channel and a delivery tag are
-- numbers; the confirmation of a publish is part of the call.
use kojin.Prelude.{ℕ, ◌≡◌, String, Bool, true, Option, some, List, ◌∷◌}
use kojin.Prelude.Int.{ℤ}
use kojin.Remote.{Reply, done, Call}

pub data AmqpValue : Type 0 where
  long_int : ℤ → AmqpValue
  long_string : String → AmqpValue
  short_uint : ℕ → AmqpValue

abbrev pub FieldTable : Type 0
FieldTable = List (String × AmqpValue)

pub data ExchangeKind : Type 0 where
  direct : ExchangeKind
  custom : String → ExchangeKind

abbrev pub Channel : Type 0
Channel = ℕ

pub record Delivery : Type 0 where
  pub delivery_tag : ℕ
  pub payload : String

-- A persistent message with the content type application/json.
pub record Publish : Type 0 where
  pub exchange : String
  pub routing_key : String
  pub payload : String
  pub priority : Option ℕ
  pub headers : FieldTable

pub record Lapin (W : Type 0) : Type 0 where
  pub connect : String → Call W (Unit {0})
  pub create_channel : Call W Channel
  -- A connection of its own and a channel on it, as the probe for the delayed exchange opens them.
  pub probe_channel : String → Call W Channel
  -- A durable exchange.
  pub exchange_declare : Channel → String → ExchangeKind → FieldTable → Call W (Unit {0})
  -- The answer is the number of messages; the flag is `passive`, a queue that is not is durable.
  pub queue_declare : Channel → String → Bool → FieldTable → Call W ℕ
  pub queue_bind : Channel → String → String → String → Call W (Unit {0})
  pub basic_qos : Channel → ℕ → Call W (Unit {0})
  pub basic_consume : Channel → String → String → Call W (Unit {0})
  pub basic_publish : Channel → Publish → Call W (Unit {0})
  pub basic_ack : Channel → ℕ → Call W (Unit {0})
  -- The flag is `requeue`.
  pub basic_nack : Channel → ℕ → Bool → Call W (Unit {0})
  pub basic_get : Channel → String → Call W (Option Delivery)
  -- consumer.next(): `none` is the end of the stream.
  pub next : Channel → W → Option (Reply Delivery) × W
  pub now_v7 : W → String
  pub utc_now_millis : W → ℕ

-- What can be seen of the server: the messages that are ready in a queue, those that a channel got
-- and has not settled, and the queue that a channel consumes.
pub record View (W : Type 0) : Type 0 where
  pub ready : W → String → List String
  pub unacked : W → Channel → ℕ → Option (String × String)
  pub queue_of : Channel → String

-- What RabbitMQ documents, as long as no call fails: a new channel changes no queue, a consumer and
-- `basic.get` are given the first message that is ready, and a message that is requeued goes back to
-- the place that it had if that is possible. Where messages are requeued here, the delivery is the
-- one of its queue that is out, so this place is the first.
pub record Documented {W : Type 0} (lapin : Lapin W) (v : View W) : Type 0 where
  pub channel_lem :
      (w : W)
      → (ch : Channel) × (w' : W) × (lapin.create_channel w ≡ (done ch, w'))
        × ((queue : String) → v.ready w' queue ≡ v.ready w queue)
  pub next_lem :
      (ch : Channel) (payload : String) (rest : List String) (w : W)
      → v.ready w (v.queue_of ch) ≡ payload ∷ rest
      → (tag : ℕ) × (w' : W) × (lapin.next ch w
          ≡ (some (done (record { delivery_tag = tag; payload = payload })), w'))
        × (v.unacked w' ch tag ≡ some (v.queue_of ch, payload))
        × (v.ready w' (v.queue_of ch) ≡ rest)
  pub get_lem :
      (ch : Channel) (queue payload : String) (rest : List String) (w : W)
      → v.ready w queue ≡ payload ∷ rest
      → (tag : ℕ) × (w' : W) × (lapin.basic_get ch queue w
          ≡ (done (some (record { delivery_tag = tag; payload = payload })), w'))
        × (v.unacked w' ch tag ≡ some (queue, payload))
        × (v.ready w' queue ≡ rest)
  pub requeue_lem :
      (ch : Channel) (tag : ℕ) (queue payload : String) (w : W)
      → v.unacked w ch tag ≡ some (queue, payload)
      → (w' : W) × (lapin.basic_nack ch tag true w ≡ (done tt, w'))
        × (v.ready w' queue ≡ payload ∷ v.ready w queue)
