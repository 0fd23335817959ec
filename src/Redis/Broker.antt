-- ===== src/Redis/Broker.antt =====
-- kojin-redis/src/broker.rs and scripts.rs: the broker on Redis. `redis` and `serde` are the crates that
-- it calls, and `queue_of` is the field `queue` of a message's JSON, as the script reads it. Log calls
-- are left out. A timeout is in seconds.
pub mod Scheduled
pub mod Fifo
pub mod Dedup
use Prim.Native.String.{◌++◌ as ◌+++◌}
use kojin.Prelude.{
  ℕ, ◌+◌, ◌-◌, ◌%◌, ◌^◌, String, Bool, true, false, Option, none, some, List, [], ◌∷◌, ◌++◌,
  if◌then◌else◌, nat_key, string_key,
}
use kojin.Prelude.Int.{ℤ, pos, negsuc, as_isize}
use kojin.Prelude.Text.{contains, strip_prefix, remove_all}
use kojin.Error.{KojinError, TaskResult, ok, err, ◌>>=◌}
use kojin.Message.{TaskId, DateTime, TaskMessage}
use kojin.Broker.{Action, Broker}
use kojin.Remote.{Reply, done, failed, Call, broker_err}
use kojin.Action.{continue, lift}
use kojin.Serde.{MessageSerde}
use kojin.Redis.Config.{RedisConfig}
use kojin.Redis.Commands.{Commands}
use kojin.Redis.Keys
use kojin.Redis.Keys.{KeyBuilder, queue, processing, scheduled, dlq, dedup}

-- The pool is part of the server's state.
pub record RedisBroker : Type 0 where
  pub keys : KeyBuilder
  pub worker_id : String
  pub dedup_ttl : ℕ

module _ {W : Type 0} where
  -- command.await.map_err(broker_err)
  abbrev pub answered : {A : Type 0} → Call W A → Action W A
  answered call w = let (r, w') = call w in (broker_err r, w')

-- #items
pub size : List String → ℕ
size [] = 0
size (item ∷ items) = size items + 1

module _ {W : Type 0} (redis : Commands W) where
  -- RedisBroker::new
  new : RedisConfig → Action W RedisBroker
  new config w = continue (answered (redis.build_pool config.url config.pool_size) w) λ u w1.
      continue (answered redis.pool_get w1) λ conn w2. (
        ok (record {
          keys = Keys.new config.key_prefix;
          worker_id = redis.now_v7 w2;
          dedup_ttl = config.dedup_ttl;
        }),
        w2,
      )

  -- POLL_SCHEDULED_SCRIPT: the `for` loop, and the whole script.
  pub push_all : (String → String) → String → List String → W → W
  push_all queue_of prefix [] w = w
  push_all queue_of prefix (item ∷ items) w =
      push_all queue_of prefix items
        (redis.script_lpush (prefix +++ ":queue:" +++ queue_of item) item w)

  pub move_due : (String → String) → String → ℕ → String → List String → W → ℕ × W
  unfolding push_all size
  move_due queue_of key now prefix [] w = (0, w)
  move_due queue_of key now prefix (item ∷ items) w = (
    size (item ∷ items),
    redis.zremrangebyscore key now (push_all queue_of prefix (item ∷ items) w),
  )

  pub poll_scheduled_script : (String → String) → String → ℕ → String → W → ℕ × W
  unfolding move_due
  poll_scheduled_script queue_of key now prefix w =
      move_due queue_of key now prefix (redis.zrangebyscore key now 100 w) w

module _ {J W : Type 0} (redis : Commands W) (serde : MessageSerde J) (queue_of : String → String)
    (to_string : TaskId → String) (b : RedisBroker) where
  abbrev conn : Action W Unit
  conn w = answered redis.pool_get w

  pub poll_scheduled : Action W ℕ
  unfolding poll_scheduled_script
  poll_scheduled w = continue (conn w) λ c w1.
      let prefix = remove_all ":scheduled" (scheduled b.keys) in
      answered
        (redis.invoke
          (poll_scheduled_script redis queue_of (scheduled b.keys) (redis.utc_now w1) prefix))
        w1

  -- An error of SET counts as `false`.
  unwrap_or_false : Reply Bool → Bool
  unwrap_or_false (done set) = set
  unwrap_or_false (failed e) = false

  -- SET NX for a message with a deduplication key; `true` is to go on.
  pub first_of_key : Option String → W → Bool × W
  unfolding unwrap_or_false
  first_of_key none w = (true, w)
  first_of_key (some key) w =
      let (r, w') = redis.set_nx (dedup b.keys key) b.dedup_ttl w in (unwrap_or_false r, w')

  pub push : String → TaskMessage J → Action W Unit
  push key m w =
      continue (lift (serde.to_text m) w) λ serialized w1. answered (redis.lpush key serialized) w1

  pub enqueue : TaskMessage J → Action W Unit
  unfolding first_of_key push
  enqueue m w = continue (conn w) λ c w1.
      let (set, w2) = first_of_key m.dedup_key w1 in
      if set then push (queue b.keys m.queue) m w2 else (ok tt, w2)

  -- What BLMOVE answered: a message, or nothing, and then the loop goes on with `rest`.
  pub moved : Option String → Action W (Option (TaskMessage J)) → Action W (Option (TaskMessage J))
  moved none rest w = rest w
  moved (some text) rest w = continue (lift (serde.from_text text) w) λ m w1. (ok (some m), w1)

  -- The loop over the queues, each with the whole timeout.
  pub dequeue_from : ℕ → List String → Action W (Option (TaskMessage J))
  unfolding moved
  dequeue_from timeout [] w = (ok none, w)
  dequeue_from timeout (name ∷ names) w =
      continue
        (answered (redis.blmove (queue b.keys name) (processing b.keys b.worker_id) timeout) w)
        λ result w1. moved result (dequeue_from timeout names) w1

  pub dequeue : ℕ → List String → List (W → W) → Action W (Option (TaskMessage J))
  unfolding dequeue_from
  dequeue timeout queues wakes w = continue (conn w) λ c w1. dequeue_from timeout queues w1

  -- The first item that contains the text of the id is removed.
  pub remove_first : String → List String → Action W Unit
  remove_first id_str [] w = (ok tt, w)
  remove_first id_str (item ∷ items) w =
      let later = remove_first id_str items w in
      if contains id_str item
      then answered (redis.lrem (processing b.keys b.worker_id) 1 item) w
      else later

  pub ack : TaskId → Action W Unit
  unfolding remove_first
  ack id w = continue (conn w) λ c w1.
      continue (answered (redis.lrange (processing b.keys b.worker_id) (pos 0) (negsuc 0)) w1)
        λ items w2. remove_first (to_string id) items w2

  pub nack : TaskMessage J → Action W Unit
  unfolding ack enqueue
  nack m w = continue (ack m.id w) λ u w1. enqueue m w1

  pub dead_letter : TaskMessage J → Action W Unit
  unfolding ack push
  dead_letter m w =
      continue (conn w) λ c w1. continue (ack m.id w1) λ u w2. push (dlq b.keys m.queue) m w2

  pub schedule : TaskMessage J → DateTime → Action W Unit
  schedule m eta w = continue (conn w) λ c w1.
      continue (lift (serde.to_text m) w1)
        λ serialized w2. answered (redis.zadd (scheduled b.keys) serialized eta) w2

  pub queue_len : String → Action W ℕ
  queue_len name w = continue (conn w) λ c w1. answered (redis.llen (queue b.keys name)) w1

  pub dlq_len : String → Action W ℕ
  dlq_len name w = continue (conn w) λ c w1. answered (redis.llen (dlq b.keys name)) w1

  -- The part of a key after the prefix, of the keys that have it.
  names : String → List String → List String
  names prefix [] = []
  names prefix (key ∷ keys) =
      let rest = names prefix keys in
      elim (strip_prefix prefix key) [ none ↦ rest | some name ↦ name ∷ rest ]

  pub list_queues : Action W (List String)
  unfolding names
  list_queues w = continue (conn w) λ c w1.
      continue (answered (redis.keys (b.keys.prefix +++ ":queue:*")) w1)
        λ keys w2. (ok (names (b.keys.prefix +++ ":queue:") keys), w2)

  -- collect() of results: the first error, or all messages.
  read_all : List String → TaskResult (List (TaskMessage J))
  read_all [] = ok []
  read_all (item ∷ items) = do m ← serde.from_text item; ms ← read_all items; ok (m ∷ ms)

  -- `offset + limit - 1` of `usize`: below 0 it wraps around where overflow is not checked.
  pub dlq_messages : String → ℕ → ℕ → Action W (List (TaskMessage J))
  unfolding read_all
  dlq_messages name offset limit w = continue (conn w) λ c w1.
      let end = (offset + limit + 2 ^ 64 - 1) % 2 ^ 64 in
      continue (answered (redis.lrange (dlq b.keys name) (as_isize offset) (as_isize end)) w1)
        λ items w2. lift (read_all items) w2

  abbrev pub redis_broker : ℕ → Broker J W
  redis_broker timeout = record {
    enqueue = enqueue;
    dequeue = dequeue timeout;
    ack = ack;
    nack = nack;
    dead_letter = dead_letter;
    schedule = schedule;
    queue_len = queue_len;
    dlq_len = dlq_len;
    list_queues = list_queues;
    dlq_messages = dlq_messages;
  }
