-- ===== src/Sqs/Limits/Calls.antt =====
-- Every operation of the broker in kojin-sqs/src/broker.rs keeps what SQS asks of its requests.
use kojin.Prelude.{
  ℕ, ◌≡◌, true, false, String, Option, none, some, List, [], ◌∷◌, nat_key, string_key,
}
use kojin.Prelude.Map
use kojin.Message.{TaskId, DateTime, TaskMessage}
use kojin.Broker.{Action}
use kojin.Serde.{MessageSerde}
use kojin.Sqs.Queues.{SqsConfig, resolve_queue_url, is_fifo}
use kojin.Sqs.Requests.{Client}
use kojin.Sqs.{
  SqsBroker, enqueue, dequeue, ack, nack, dead_letter, schedule, queue_len, dlq_len, list_queues,
}
use kojin.Sqs.Limits.{Kept, Holds}

module _ {J W : Type 0} (client : Client W) (serde : MessageSerde J) (to_string : TaskId → String)
    (config : SqsConfig) (timeout : ℕ) where
  -- The calls of the broker's operations.
  pub data Op : Type 0 where
    enqueues : TaskMessage J → Op
    dequeues : List String → Op
    acks : TaskId → Op
    nacks dead_letters : TaskMessage J → Op
    schedules : TaskMessage J → DateTime → Op
    measures measures_dlq : String → Op
    lists : Op

  -- What the caller must keep to: a message for a FIFO queue is not to be scheduled, and it has no
  -- ETA when it is enqueued.
  abbrev pub IsAllowed : Op → Type 0
  IsAllowed (enqueues m) =
      (url : String)
      → resolve_queue_url config m.queue ≡ some url
      → is_fifo url ≡ true
      → m.eta ≡ none
  IsAllowed (schedules m eta) =
      (url : String) → resolve_queue_url config m.queue ≡ some url → is_fifo url ≡ false
  IsAllowed (dequeues queues) = Unit
  IsAllowed (acks id) = Unit
  IsAllowed (nacks m) = Unit
  IsAllowed (dead_letters m) = Unit
  IsAllowed (measures queue) = Unit
  IsAllowed (measures_dlq queue) = Unit
  IsAllowed lists = Unit

  pub perform : Op → SqsBroker W → SqsBroker W
  perform (enqueues m) b = (enqueue client serde to_string config m b).1
  perform (dequeues queues) b = (dequeue client serde to_string config timeout queues [] b).1
  perform (acks id) b = (ack client serde to_string config id b).1
  perform (nacks m) b = (nack client serde to_string config m b).1
  perform (dead_letters m) b = (dead_letter client serde to_string config m b).1
  perform (schedules m eta) b = (schedule client serde to_string config m eta b).1
  perform (measures queue) b = (queue_len client serde to_string config queue b).1
  perform (measures_dlq queue) b = (dlq_len client serde to_string config queue b).1
  perform lists b = (list_queues client serde to_string config b).1

  pub perform_all : List Op → SqsBroker W → SqsBroker W
  unfolding perform
  perform_all [] b = b
  perform_all (op ∷ ops) b = perform_all ops (perform op b)

  module _ (Inv : W → Type 0) (kept : Kept client Inv) where
    abbrev Polls : Action (SqsBroker W) (Option (TaskMessage J)) → Type 0
    Polls rest = (b : SqsBroker W) → Inv b.server → Holds Inv (rest b)
