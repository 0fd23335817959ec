-- ===== src/Sqs/Limits.antt =====
-- What SQS asks of a request to send a message.
pub mod Calls
pub mod Refusals
use kojin.Prelude.{
  ℕ, ◌-◌, ◌≤◌, min, ◌≡◌, refl, String, Bool, true, false, Option, none, some, List, [], ◌∷◌, arith,
  Bool-cases, ltb, nat_key, string_key, inl, inr, Option-cases, if◌then◌else◌,
}
use kojin.Prelude.Map
use kojin.Error.{KojinError, TaskResult, ok, err, queue_not_found}
use kojin.Message.{TaskId, DateTime, TaskMessage}
use kojin.Broker.{Action}
use kojin.Remote.{Call}
use kojin.Action.{continue, ok_or, lift}
use kojin.Serde.{MessageSerde}
use kojin.Sqs.Queues.{SqsConfig, is_fifo, resolve_queue_url}
use kojin.Sqs.Requests.{Client, SendMessage, ReceiveMessage, SqsMessage}
use kojin.Sqs.{
  SqsBroker, ask, request, delay_until, with_late_eta, sent, forget, keep_receipt, enqueue,
  received, dequeue_from, dequeue, ack, nack, send_dead, dead_letter, schedule, body_of, found_or,
  poll_queue, queue_len, dlq_len, list_queues,
}

abbrev pub IsSome : {A : Type 0} → Option A → Type 0
IsSome none = ⊥
IsSome (some a) = Unit

abbrev pub AtMost : ℕ → Option ℕ → Type 0
AtMost limit none = Unit
AtMost limit (some n) = n ≤ limit

-- A message to a FIFO queue has a group and a deduplication id, one to a standard queue has neither;
-- a delay is at most 900 seconds, and a message to a FIFO queue has none of its own.
pub record Valid (r : SendMessage) : Type 0 where
  pub delay : AtMost 900 r.delay_seconds
  pub undelayed : is_fifo r.queue_url ≡ true → r.delay_seconds ≡ none
  pub grouped : is_fifo r.queue_url ≡ true → IsSome r.message_group_id
  pub deduplicated : is_fifo r.queue_url ≡ true → IsSome r.message_deduplication_id
  pub standard :
      is_fifo r.queue_url ≡ false
      → (r.message_group_id ≡ none) × (r.message_deduplication_id ≡ none)

pub request-Valid :
    (url body queue dedup : String) (delay : Option ℕ)
    → AtMost 900 delay
    → (is_fifo url ≡ true → delay ≡ none)
    → Valid (request url body queue dedup delay)
unfolding request
request-Valid url body queue dedup delay h undelayed = record {
  delay = h;
  undelayed = undelayed;
  grouped = λ f. rw f tt;
  deduplicated = λ f. rw f tt;
  standard = λ f. (rw f refl, rw f refl);
}

pub delay_until-AtMost : (now : DateTime) (eta : Option DateTime) → AtMost 900 (delay_until now eta)
unfolding delay_until
delay_until-AtMost now none = tt
delay_until-AtMost now (some eta) = ground arith

-- A property of the server that every call keeps, a request to send only if it is valid.
pub record Kept {W : Type 0} (client : Client W) (Inv : W → Type 0) : Type 0 where
  pub send : (r : SendMessage) (w : W) → Valid r → Inv w → Inv (client.send_message r w).1
  pub receive : (r : ReceiveMessage) (w : W) → Inv w → Inv (client.receive_message r w).1
  pub delete : (url handle : String) (w : W) → Inv w → Inv (client.delete_message url handle w).1
  pub change :
      (url handle : String) (n : ℕ) (w : W)
      → Inv w
      → Inv (client.change_message_visibility url handle n w).1
  pub attributes : (url : String) (w : W) → Inv w → Inv (client.get_queue_attributes url w).1

module _ {W : Type 0} (Inv : W → Type 0) where
  abbrev pub Holds : {A : Type 0} → TaskResult A × SqsBroker W → Type 0
  Holds r = Inv r.1.server

  pub continue-Holds :
      {A B : Type 0} (r : TaskResult A × SqsBroker W) (f : A → Action (SqsBroker W) B)
      → Holds r
      → ((a : A) (b : SqsBroker W) → Inv b.server → Holds (f a b))
      → Holds (continue r f)
  continue-Holds (ok a, b) f h k = k a b h
  continue-Holds (err e, b) f h k = h

  -- What follows `ok_or` where there is a value.
  pub ok_or-Holds_value :
      {A B : Type 0} (o : Option A) (e : KojinError) (f : A → Action (SqsBroker W) B)
      (b : SqsBroker W)
      → Inv b.server
      → ((a : A) → o ≡ some a → Holds (f a b))
      → Holds (continue (ok_or o e b) f)
  ok_or-Holds_value none e f b h k = h
  ok_or-Holds_value (some a) e f b h k = k a refl

  pub ok_or-Holds :
      {A : Type 0} (o : Option A) (e : KojinError) (b : SqsBroker W)
      → Inv b.server
      → Holds (ok_or o e b)
  ok_or-Holds none e b h = h
  ok_or-Holds (some a) e b h = h

module _ {J : Type 0} where
  pub with_late_eta-queue :
      (eta : DateTime) (delay : ℕ) (m : TaskMessage J) → (with_late_eta eta delay m).queue ≡ m.queue
  unfolding with_late_eta
  with_late_eta-queue eta delay m = elim (Bool-cases (ltb 900 delay)) [
    | inl late ↦ rw late refl
    | inr soon ↦ rw soon refl
  ]
