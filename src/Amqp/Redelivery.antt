-- ===== src/Amqp/Redelivery.antt =====
-- What the broker on RabbitMQ does with a message that a worker gives back.
use kojin.Prelude.{
  ℕ, ◌≡◌, refl, sym, ap, subst, ◌∙◌, String, Bool, true, false, Option, some, List, [], ◌∷◌, ◌++◌,
  arith, length, nat_key,
}
use kojin.Prelude.Map
use kojin.Prelude.Map.{get-insert_self}
use kojin.Error.{KojinError, ok}
use kojin.Message.{TaskMessage}
use kojin.Broker.{Broker}
use kojin.Remote.{Reply}
use kojin.Serde.{MessageSerde}
use kojin.Worker.{Worker, World, Reading}
use kojin.Worker.Redelivery.{Redelivers, rounds, Endless, IsFailing, rounds-Endless}
use kojin.Amqp.Config.{AmqpConfig}
use kojin.Amqp.Calls.{Lapin, View, Documented, Channel, Delivery}
use kojin.Amqp.{
  AmqpBroker, asked, forget, dequeue, consume, consumed, delivered, reject, nack, amqp_broker,
}

module _ {J W : Type 0} (queues : List String) where
  dequeue_waits :
      (wakes : List (AmqpBroker J W → AmqpBroker J W)) (act : AmqpBroker J W → AmqpBroker J W)
      (b : AmqpBroker J W)
      → b.rx ≡ []
      → dequeue queues (act ∷ wakes) b ≡ dequeue queues wakes (act b)
  unfolding dequeue
  dequeue_waits wakes act b h = ground (arith, h)

  dequeue_first :
      (b : AmqpBroker J W) (m : TaskMessage J) (rest : List (TaskMessage J))
      → b.rx ≡ m ∷ rest
      → dequeue queues [] b ≡ (ok (some m), record b { rx = rest })
  unfolding dequeue
  dequeue_first b m rest h = ground (arith, h)

module _ {J W : Type 0} (lapin : Lapin W) (v : View W) (serde : MessageSerde J)
    (config : AmqpConfig) (ch : Channel) (m : TaskMessage J) (payload : String) where
  -- The server holds the message alone on the queue that the channel `ch` consumes, and nothing has
  -- come from the consumers; a worker holds it under the delivery tag of the channel.
  pub record Ready (b : AmqpBroker J W) : Type 0 where
    pub waits : v.ready b.server (v.queue_of ch) ≡ payload ∷ []
    pub buffer : b.rx ≡ []
    pub running : b.cancelled ≡ false

  pub record Lent (b : AmqpBroker J W) : Type 0 where
    pub tag : ℕ
    pub delivery : Map.get m.id b.deliveries ≡ some (ch, tag)
    pub unacked : v.unacked b.server ch tag ≡ some (v.queue_of ch, payload)
    pub alone : v.ready b.server (v.queue_of ch) ≡ []
    pub buffer : b.rx ≡ []
    pub running : b.cancelled ≡ false

  reject_held :
      (requeue : Bool) (id tag : ℕ) (b : AmqpBroker J W)
      → Map.get id b.deliveries ≡ some (ch, tag)
      → reject lapin serde config requeue id b
        ≡ asked (lapin.basic_nack ch tag requeue) (forget id b)
  unfolding reject
  reject_held requeue id tag b h = rw (h, reject)

  -- What happens while a dequeue waits: one turn of the consumer.
  abbrev pub wake : AmqpBroker J W → AmqpBroker J W
  wake b = (consume lapin serde config ch b).1

  consume_running :
      (b : AmqpBroker J W) (event : Option (Reply Delivery)) (w : W)
      → lapin.next ch b.server ≡ (event, w)
      → b.cancelled ≡ false
      → wake b ≡ (consumed lapin serde config ch event (record b { server = w })).1
  unfolding consume
  consume_running b event w h running = ground (arith, h)

  module _ (documented : Documented lapin v) (reads : serde.from_text payload ≡ ok m)
      (q : String) where
    delivers_one :
        (b : AmqpBroker J W)
        → Ready b
        → (b' : AmqpBroker J W) × (dequeue (q ∷ []) (wake ∷ []) b ≡ (ok (some m), b')) × Lent b'
    unfolding delivered consumed
    delivers_one b ready =
        let (tag, w', next, out, left) = documented.next_lem ch payload [] b.server ready.waits in
        let b1 : AmqpBroker J W = record b {
          server = w';
          deliveries = Map.insert m.id (ch, tag) b.deliveries;
          rx = b.rx ++ m ∷ [];
        } in
        let woken : wake b ≡ b1 =
          consume_running b _ w' next ready.running
          ∙ ap
              (λ r.
                delivered lapin serde config ch (record { delivery_tag = tag; payload = payload }) r
                  (record b { server = w' }))
              reads in
        let first : b1.rx ≡ m ∷ [] = ap (λ l. l ++ m ∷ []) ready.buffer in
        (
          record b1 { rx = [] },
          dequeue_waits (q ∷ []) [] wake b ready.buffer
              ∙ ap (λ c. dequeue (q ∷ []) [] c) woken
              ∙ dequeue_first (q ∷ []) b1 m [] first,
          record {
            tag = tag;
            delivery = get-insert_self m.id (ch, tag) b.deliveries;
            unacked = out;
            alone = left;
            buffer = refl;
            running = ready.running;
          },
        )

    taken_back :
        (n : TaskMessage J) (b : AmqpBroker J W)
        → n.id ≡ m.id
        → Lent b
        → Ready (nack lapin serde config n b).1
    unfolding nack forget
    taken_back n b same lent =
        let (w', call, back) =
          documented.requeue_lem ch lent.tag (v.queue_of ch) payload b.server lent.unacked in
        let held = ap (λ i. Map.get i b.deliveries) same ∙ lent.delivery in
        rw (reject_held true n.id lent.tag b held, call)
          (record {
            waits = back ∙ ap (λ l. payload ∷ l) lent.alone;
            buffer = lent.buffer;
            running = lent.running;
          })

    pub amqp_broker-Redelivers :
        Redelivers (amqp_broker lapin serde config) q (wake ∷ []) m Ready Lent
    amqp_broker-Redelivers = record { delivers = delivers_one; takes_back = taken_back }

    -- A worker on RabbitMQ never gives up a message that fails and has a retry left, as long as the
    -- server does what RabbitMQ documents: `nack` does not publish the message that counts the
    -- retry but requeues the one that was delivered, so in any number of turns every turn executes
    -- that message with its retries as they were and after the same backoff, and it is on the queue
    -- in the end.
    pub requeued_forever :
        {C R M : Type 0} (k : Worker J C (AmqpBroker J W) R M)
        (on_amqp : k.broker ≡ amqp_broker lapin serde config) (e : KojinError)
        (rds : List (Reading (AmqpBroker J W))) (w : World (AmqpBroker J W) R M)
        → IsFailing k q (wake ∷ []) m e rds
        → Ready w.broker
        → Endless k q
            (wake ∷ [])
            m
            Ready
            (length rds)
            w
            (rounds k q (wake ∷ []) rds w).0
            (rounds k q (wake ∷ []) rds w).1
    requeued_forever k on_amqp e rds w f ready =
        rounds-Endless k q (wake ∷ []) m Ready Lent
          (subst (λ (b : Broker J (AmqpBroker J W)). Redelivers b q (wake ∷ []) m Ready Lent)
            (sym on_amqp) amqp_broker-Redelivers)
          e rds w f ready
