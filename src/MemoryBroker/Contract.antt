-- ===== src/MemoryBroker/Contract.antt =====
-- The broker in memory keeps the contract of the trait.
use kojin.Prelude.{
  Option, ◌≡◌, refl, String, arith, ◌++◌, ◌∷◌, [], string_key, nat_key, if◌then◌else◌, ◌==◌,
}
use kojin.Prelude.Map
use kojin.Prelude.Map.{get-insert, get-remove}
use kojin.Message.{TaskMessage}
use kojin.Broker.{View, IsBroker}
use kojin.MemoryBroker.{
  MemoryBroker, memory_broker, queue_at, push_back, enqueue, ack, nack, dead_letter,
}
use kojin.Prelude.{List, ℕ}
use kojin.Prelude.Map.{Map}

module _ {J : Type 0} where
  abbrev pub waiting : MemoryBroker J → String → List (TaskMessage J)
  waiting b q = queue_at q b.queues

  abbrev pub dead : MemoryBroker J → String → List (TaskMessage J)
  dead b q = queue_at q b.dlq

  abbrev pub held : MemoryBroker J → ℕ → Option (TaskMessage J)
  held b i = Map.get i b.processing

  abbrev pub view : View J (MemoryBroker J)
  view = record { waiting = waiting; dead = dead; held = held }

  -- A message pushed on one queue stands last in it, and every other queue is as it was.
  pub queue_at-push_back :
      (name q : String) (m : TaskMessage J) (queues : Map String (List (TaskMessage J)))
      → queue_at q (push_back name m queues)
        ≡ (if name == q then queue_at q queues ++ m ∷ [] else queue_at q queues)
  unfolding queue_at push_back
  queue_at-push_back name q m queues =
      ground (
        arith,
        get-insert name q (queue_at name queues ++ m ∷ []) queues,
        string_key.same_iff name q,
      )

  -- Every operation of the broker in memory keeps the contract of the trait: an enqueued or refused
  -- message waits last in its queue, a dead-lettered one stands last among the dead of its queue, an
  -- acknowledged, refused or dead-lettered id is no longer held, nothing else of the queues and of
  -- what is held changes, and none of these calls fails.
  pub memory_broker-IsBroker : IsBroker memory_broker view
  unfolding enqueue ack nack dead_letter
  memory_broker-IsBroker = record {
    enqueue_ok = λ m s. refl;
    enqueue_waits =
        λ m s. record { waiting = λ q. queue_at-push_back m.queue q m s.queues; dead = λ q. refl };
    enqueue_held = λ m s j. refl;
    ack_ok = λ i s. refl;
    ack_queues = λ i s. record { waiting = λ q. refl; dead = λ q. refl };
    ack_lets_go = λ i s j. get-remove i j s.processing;
    nack_ok = λ m s. refl;
    nack_waits =
        λ m s. record { waiting = λ q. queue_at-push_back m.queue q m s.queues; dead = λ q. refl };
    nack_lets_go = λ m s j. get-remove m.id j s.processing;
    dead_letter_ok = λ m s. refl;
    dead_letter_dies =
        λ m s. record { waiting = λ q. refl; dead = λ q. queue_at-push_back m.queue q m s.dlq };
    dead_letter_lets_go = λ m s j. get-remove m.id j s.processing;
  }
