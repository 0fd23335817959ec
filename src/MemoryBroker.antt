-- ===== src/MemoryBroker.antt =====
-- kojin-core/src/memory_broker.rs: the broker in memory. The mutexes make each method one step. What
-- `Notify` and the timer do while `dequeue` waits is its list of wake-ups (see Broker).
pub mod Contract
pub mod Polling
pub mod Paging
pub mod Fifo
use kojin.Prelude.{
  ℕ, String, Option, none, some, List, [], ◌∷◌, ◌++◌, map, length, take, drop, string_key, nat_key,
}
use kojin.Prelude.Map
use kojin.Prelude.Map.{Map}
use kojin.Error.{TaskResult, ok}
use kojin.Message.{TaskId, DateTime, TaskMessage}
use kojin.Broker.{Action, Broker}

pub record MemoryBroker (J : Type 0) : Type 0 where
  pub queues : Map String (List (TaskMessage J))
  pub dlq : Map String (List (TaskMessage J))
  pub processing : Map TaskId (TaskMessage J)

module _ {J : Type 0} where
  abbrev pub new : MemoryBroker J
  new = record { queues = Map.empty; dlq = Map.empty; processing = Map.empty }

  -- queues.get(name), with no queue for an empty one
  unfoldable pub queue_at : String → Map String (List (TaskMessage J)) → List (TaskMessage J)
  queue_at name queues = elim (Map.get name queues) [ none ↦ [] | some q ↦ q ]

  -- queues.entry(name).or_default().push_back(message)
  pub push_back :
      String → TaskMessage J → Map String (List (TaskMessage J)) → Map String (List (TaskMessage J))
  unfolding queue_at
  push_back name m queues = Map.insert name (queue_at name queues ++ m ∷ []) queues

  unfoldable pub enqueue : TaskMessage J → Action (MemoryBroker J) Unit
  unfolding push_back
  enqueue m b = (ok tt, record b { queues = push_back m.queue m b.queues })

  -- q.get_mut(name), then queue.pop_front()
  pub pop_front : Option (List (TaskMessage J)) → Option (TaskMessage J × List (TaskMessage J))
  pop_front none = none
  pop_front (some []) = none
  pop_front (some (m ∷ rest)) = some (m, rest)

  -- The `for` loop over the requested queues; `none` is to fall through it.
  pub try_pop : List String → MemoryBroker J → Option (TaskMessage J × MemoryBroker J)
  unfolding pop_front
  try_pop [] b = none
  try_pop (name ∷ names) b =
      let later = try_pop names b in
      elim (pop_front (Map.get name b.queues)) [
        | none ↦ later
        | some (m, rest) ↦ some (
          m,
          record b {
            queues = Map.insert name rest b.queues;
            processing = Map.insert m.id m b.processing;
          },
        )
      ]

  -- The outer loop: a miss waits for a wake-up or for the timeout.
  unfoldable pub dequeue :
      List String
      → List (MemoryBroker J → MemoryBroker J)
      → Action (MemoryBroker J) (Option (TaskMessage J))
  unfolding try_pop
  dequeue names [] b = elim (try_pop names b) [
    | none ↦ (ok none, b)
    | some (m, b') ↦ (ok (some m), b')
  ]
  dequeue names (act ∷ wakes) b =
      let waited = dequeue names wakes (act b) in
      elim (try_pop names b) [ none ↦ waited | some (m, b') ↦ (ok (some m), b') ]

  release : TaskId → MemoryBroker J → MemoryBroker J
  release id b = record b { processing = Map.remove id b.processing }

  unfoldable pub ack : TaskId → Action (MemoryBroker J) Unit
  unfolding release
  ack id b = (ok tt, release id b)

  unfoldable pub nack : TaskMessage J → Action (MemoryBroker J) Unit
  unfolding release enqueue
  nack m b = enqueue m (release m.id b)

  unfoldable pub dead_letter : TaskMessage J → Action (MemoryBroker J) Unit
  unfolding release push_back
  dead_letter m b =
      let freed = release m.id b in (ok tt, record freed { dlq = push_back m.queue m freed.dlq })

  -- There is no scheduled queue: the message is enqueued at once.
  unfoldable pub schedule : TaskMessage J → DateTime → Action (MemoryBroker J) Unit
  unfolding enqueue
  schedule m eta b = enqueue m b

  unfoldable pub queue_len : String → Action (MemoryBroker J) ℕ
  unfolding queue_at
  queue_len queue b = (ok (length (queue_at queue b.queues)), b)

  unfoldable pub dlq_len : String → Action (MemoryBroker J) ℕ
  unfolding queue_at
  dlq_len queue b = (ok (length (queue_at queue b.dlq)), b)

  unfoldable pub list_queues : Action (MemoryBroker J) (List String)
  list_queues b = (ok (map (λ entry. entry.0) b.queues), b)

  -- q.iter().skip(offset).take(limit)
  unfoldable pub dlq_messages : String → ℕ → ℕ → Action (MemoryBroker J) (List (TaskMessage J))
  unfolding queue_at
  dlq_messages queue offset limit b = (ok (take limit (drop offset (queue_at queue b.dlq))), b)

  abbrev pub memory_broker : Broker J (MemoryBroker J)
  memory_broker = record {
    enqueue = enqueue;
    dequeue = dequeue;
    ack = ack;
    nack = nack;
    dead_letter = dead_letter;
    schedule = schedule;
    queue_len = queue_len;
    dlq_len = dlq_len;
    list_queues = list_queues;
    dlq_messages = dlq_messages;
  }
