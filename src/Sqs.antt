-- ===== src/Sqs.antt =====
-- kojin-sqs/src/broker.rs: the broker on Amazon SQS and its operations; `Queues` has its configuration
-- and the queue urls, `Requests` those to the server. `client` and `serde` are the crates that it
-- calls; the text of a task id is `to_string`. Log calls are left out.
pub mod Queues
pub mod Requests
pub mod Redelivery
pub mod Limits
use kojin.Prelude.{
  ℕ, ◌-◌, String, Bool, Option, none, some, List, [], ◌∷◌, map, min, ltb, if◌then◌else◌, ◌==◌,
  string_key, nat_key,
}
use kojin.Prelude.Map
use kojin.Prelude.Map.{Map}
use kojin.Prelude.Text.{parse_usize}
use kojin.Error.{KojinError, TaskResult, ok, err, queue_not_found}
use kojin.Message.{TaskId, DateTime, TaskMessage}
use kojin.Broker.{Action, Broker, default_dlq_messages}
use kojin.Remote.{Reply, Call, broker_err}
use kojin.Action.{continue, ok_or, lift}
use kojin.Serde.{MessageSerde}
use Queues.{SqsConfig, resolve_queue_url, queue_names, is_fifo}
use Requests.{Client, SendMessage, ReceiveMessage, SqsMessage}

-- The state behind the client, and the queue url and the receipt handle of each message that was
-- received and not yet settled.
pub record SqsBroker (W : Type 0) : Type 0 where
  pub server : W
  pub receipts : Map TaskId (String × String)

-- The request for `url`; on a FIFO queue with the group and a deduplication id.
pub request : String → String → String → String → Option ℕ → SendMessage
request url body queue dedup delay = record {
  queue_url = url;
  message_body = body;
  message_group_id = if is_fifo url then some queue else none;
  message_deduplication_id = if is_fifo url then some dedup else none;
  delay_seconds = delay;
}

-- The delay of `enqueue`: clamp(0, 900), set if it is positive.
pub delay_until : DateTime → Option DateTime → Option ℕ
delay_until now none = none
delay_until now (some eta) =
    let delay = min (eta - now) 900 in if ltb 0 delay then some delay else none

abbrev pub body_of : SqsMessage → String
body_of sqs_msg = elim sqs_msg.body [ none ↦ "{}" | some body ↦ body ]

-- The request of one turn of `dequeue`.
abbrev pub ask : SqsConfig → String → ℕ → ReceiveMessage
ask config url wait = record {
  queue_url = url;
  max_number_of_messages = 1;
  wait_time_seconds = wait;
  visibility_timeout = config.visibility_timeout;
}

-- The attribute as a number, 0 where it is missing or no number.
count_of : Option String → ℕ
count_of none = 0
count_of (some text) = elim (parse_usize text) [ none ↦ 0 | some n ↦ n ]

module _ {W : Type 0} where
  -- request.send().await.map_err(broker_err)
  abbrev pub sent : {A : Type 0} → Call W A → Action (SqsBroker W) A
  sent call b = let (r, w) = call b.server in (broker_err r, record b { server = w })

  pub forget : TaskId → SqsBroker W → SqsBroker W
  forget id b = record b { receipts = Map.remove id b.receipts }

module _ {J W : Type 0} where
  -- The receipt of a message that came with one is kept.
  pub keep_receipt : String → TaskMessage J → Option String → SqsBroker W → SqsBroker W
  keep_receipt url m none b = b
  keep_receipt url m (some handle) b = record b {
    receipts = Map.insert m.id (url, handle) b.receipts;
  }

module _ {J : Type 0} where
  -- A delay above the limit is cut, and the message keeps its ETA for the worker's guard.
  pub with_late_eta : DateTime → ℕ → TaskMessage J → TaskMessage J
  with_late_eta eta delay m =
      if ltb 900 delay then record m { fields = record m.fields { eta = some eta } } else m

module _ {J W : Type 0} (client : Client W) (serde : MessageSerde J) (to_string : TaskId → String)
    (config : SqsConfig) where
  abbrev dedup_id : TaskMessage J → String
  dedup_id m = elim m.dedup_key [ none ↦ to_string m.id | some key ↦ key ]

  pub enqueue : TaskMessage J → Action (SqsBroker W) Unit
  unfolding request delay_until
  enqueue m b =
      continue (ok_or (resolve_queue_url config m.queue) (queue_not_found m.queue) b) λ url b1.
        continue (lift (serde.to_text m) b1) λ body b2.
          sent
            (client.send_message (
              request url body m.queue (dedup_id m) (delay_until (client.utc_now b2.server) m.eta)))
            b2

  -- What a response means: `none` is to try the next queue.
  pub received : String → Option (List SqsMessage) → Action (SqsBroker W) (Option (TaskMessage J))
  unfolding keep_receipt
  received url none b = (ok none, b)
  received url (some []) b = (ok none, b)
  received url (some (sqs_msg ∷ rest)) b =
      continue (lift (serde.from_text (body_of sqs_msg)) b)
        λ m b1. (ok (some m), keep_receipt url m sqs_msg.receipt_handle b1)

  abbrev pub found_or :
      Option (TaskMessage J)
      → Action (SqsBroker W) (Option (TaskMessage J))
      → Action (SqsBroker W) (Option (TaskMessage J))
  found_or none rest b = rest b
  found_or (some m) rest b = (ok (some m), b)

  -- One turn of the loop, where `rest` is the loop over the queues that follow; a queue without a
  -- url is skipped.
  pub poll_queue :
      ℕ
      → Option String
      → Action (SqsBroker W) (Option (TaskMessage J))
      → Action (SqsBroker W) (Option (TaskMessage J))
  unfolding received
  poll_queue wait none rest b = rest b
  poll_queue wait (some url) rest b =
      continue (sent (client.receive_message (ask config url wait)) b)
        λ response b1. continue (received url response b1) λ found b2. found_or found rest b2

  -- The loop over the queues.
  pub dequeue_from : ℕ → List String → Action (SqsBroker W) (Option (TaskMessage J))
  unfolding poll_queue
  dequeue_from wait [] b = (ok none, b)
  dequeue_from wait (queue ∷ queues) b =
      poll_queue wait (resolve_queue_url config queue) (dequeue_from wait queues) b

  -- `timeout` is in seconds; the server waits, so there is nothing to be woken by.
  pub dequeue :
      ℕ
      → List String
      → List (SqsBroker W → SqsBroker W)
      → Action (SqsBroker W) (Option (TaskMessage J))
  unfolding dequeue_from
  dequeue timeout queues wakes = dequeue_from (min timeout config.wait_time_seconds) queues

  pub ack : TaskId → Action (SqsBroker W) Unit
  unfolding forget
  ack id b = elim (Map.get id b.receipts) [
    | none ↦ (ok tt, b)
    | some (url, handle) ↦ sent (client.delete_message url handle) (forget id b)
  ]

  pub nack : TaskMessage J → Action (SqsBroker W) Unit
  unfolding forget
  nack m b = elim (Map.get m.id b.receipts) [
    | none ↦ (ok tt, b)
    | some (url, handle) ↦ sent (client.change_message_visibility url handle 0) (forget m.id b)
  ]

  -- Without a `dlq_url` nothing is sent.
  pub send_dead : TaskMessage J → Option String → Action (SqsBroker W) Unit
  unfolding request
  send_dead m none b = (ok tt, b)
  send_dead m (some dlq_url) b =
      continue (lift (serde.to_text m) b) λ body b1.
        sent (client.send_message (request dlq_url body m.queue (to_string m.id) none)) b1

  -- The message has been acknowledged before.
  pub dead_letter : TaskMessage J → Action (SqsBroker W) Unit
  unfolding ack send_dead
  dead_letter m b = continue (ack m.id b) λ u b1. send_dead m config.dlq_url b1

  pub schedule : TaskMessage J → DateTime → Action (SqsBroker W) Unit
  unfolding request with_late_eta
  schedule m eta b =
      let delay = eta - client.utc_now b.server in
      let msg = with_late_eta eta delay m in
      continue (ok_or (resolve_queue_url config msg.queue) (queue_not_found msg.queue) b) λ url b1.
        continue (lift (serde.to_text msg) b1) λ body b2.
          sent
            (client.send_message (request url body msg.queue (dedup_id msg) (some (min delay 900))))
            b2

  pub queue_len : String → Action (SqsBroker W) ℕ
  unfolding count_of
  queue_len queue b =
      continue (ok_or (resolve_queue_url config queue) (queue_not_found queue) b) λ url b1.
        continue (sent (client.get_queue_attributes url) b1) λ count b2. (ok (count_of count), b2)

  pub dlq_len : String → Action (SqsBroker W) ℕ
  unfolding count_of
  dlq_len queue b = elim config.dlq_url [
    | none ↦ (ok 0, b)
    | some dlq_url ↦
        continue (sent (client.get_queue_attributes dlq_url) b)
          λ count b1. (ok (count_of count), b1)
  ]

  pub list_queues : Action (SqsBroker W) (List String)
  list_queues b = (ok (map (λ entry. entry.1) (queue_names config)), b)

  -- What `SqsBroker` implements of the trait, for a worker with this dequeue timeout.
  abbrev pub sqs_broker : ℕ → Broker J (SqsBroker W)
  sqs_broker timeout = record {
    enqueue = enqueue;
    dequeue = dequeue timeout;
    ack = ack;
    nack = nack;
    dead_letter = dead_letter;
    schedule = schedule;
    queue_len = queue_len;
    dlq_len = dlq_len;
    list_queues = list_queues;
    dlq_messages = default_dlq_messages;
  }
