-- ===== src/Redis/Broker/Dedup.antt =====
-- What the broker on Redis (kojin-redis/src/broker.rs) does with the retry of a message that has a
-- deduplication key.
use kojin.Prelude.{
  ℕ, ◌<◌, ◌≡◌, ◌≢◌, refl, sym, ap, subst, ◌∙◌, String, Bool, true, Option, some, List, ◌∷◌,
  if◌then◌else◌,
}
use kojin.Prelude.Text.{contains}
use kojin.Error.{KojinError, ok, err}
use kojin.TaskState.{started}
use kojin.Message.{TaskId, TaskMessage}
use kojin.Remote.{Reply}
use kojin.Broker.{Broker}
use kojin.Action.{continue}
use kojin.Serde.{MessageSerde}
use kojin.Worker.{Worker, World, Reading}
use kojin.Worker.Messages.{in_state, retried}
use kojin.Worker.Execution.{execute_task}
use kojin.Worker.Completion.{IsDue, dispatch_of, execute_task_fails}
use kojin.Worker.Failure.{handle_failure-requeued}
use kojin.Redis.Keys.{queue, processing, dedup}
use kojin.Redis.Commands.{Commands, View, DedupDocumented}
use kojin.Redis.Broker.{
  RedisBroker, first_of_key, push, enqueue, remove_first, ack, nack, redis_broker, unwrap_or_false,
}

module _ {J W : Type 0} (redis : Commands W) (v : View W) (has : W → String → Bool)
    (documented : DedupDocumented redis v has) (serde : MessageSerde J) (queue_of : String → String)
    (to_string : TaskId → String) (b : RedisBroker) where
  abbrev held : W → List String
  held w = v.lists w (processing b.keys b.worker_id)

  -- The worker holds the text of a message, whose deduplication key is set.
  pub record Held (m : TaskMessage J) (rest : List String) (w : W) : Type 0 where
    pub text : String
    pub first : held w ≡ text ∷ rest
    pub names_id : contains (to_string m.id) text ≡ true
    pub key : String
    pub keyed : m.dedup_key ≡ some key
    pub set : has w (dedup b.keys key) ≡ true

  -- The list of the worker has lost its first item, and no other list has changed.
  pub record Dropped (rest : List String) (w w' : W) : Type 0 where
    pub gone : held w' ≡ rest
    pub others :
        (other : String)
        → processing b.keys b.worker_id ≢ other
        → v.lists w' other ≡ v.lists w other

  -- The message is filtered while its key is set.
  filtered :
      (m : TaskMessage J) (key : String) (w : W)
      → m.dedup_key ≡ some key
      → has w (dedup b.keys key) ≡ true
      → (w' : W) × (enqueue redis serde queue_of to_string b m w ≡ (ok tt, w'))
        × ((other : String) → v.lists w' other ≡ v.lists w other)
  unfolding enqueue first_of_key unwrap_or_false
  filtered m key w keyed set =
      let (w', call, same) = documented.set_nx_lem (dedup b.keys key) b.dedup_ttl w set in
      (
        w',
        rw (documented.on_lists.pool_get_lem w, continue)
            (ap
                (λ (o : Option String).
                  let (go, w2) = first_of_key redis serde queue_of to_string b o w in
                  if go
                  then push redis serde queue_of to_string b (queue b.keys m.queue) m w2
                  else (ok tt, w2))
                keyed
              ∙ rw call refl),
        same,
      )

  nack_drops :
      (m : TaskMessage J) (rest : List String) (w : W)
      → Held m rest w
      → Dropped rest w (nack redis serde queue_of to_string b m w).1
  unfolding nack ack remove_first
  nack_drops m rest w h =
      let key = processing b.keys b.worker_id in
      let (w1, call, left, others) = documented.on_lists.lrem_lem key h.text rest w h.first in
      let still : has w1 (dedup b.keys h.key) ≡ true =
        subst (λ (r : Reply Unit × W). has r.1 (dedup b.keys h.key) ≡ true) call
          (documented.lrem_keeps key h.text w (dedup b.keys h.key) ∙ h.set) in
      let (w2, call2, same) = filtered m h.key w1 h.keyed still in
      rw
        (
          documented.on_lists.pool_get_lem w,
          continue,
          documented.on_lists.lrange_lem key w,
          h.first,
          remove_first,
          h.names_id,
          call,
          call2,
        )
        (record { gone = same key ∙ left; others = λ other apart. same other ∙ others other apart })

  module _ {C R M : Type 0} (timeout : ℕ) (k : Worker J C W R M)
      (on_redis : k.broker ≡ redis_broker redis serde queue_of to_string b timeout) where
    -- A worker on Redis loses a message with a deduplication key that fails, though it has a retry
    -- left, if the worker holds it first and its key is still set after the backoff: `nack` takes the
    -- message off the list of the worker, and no list gets it back, neither its queue nor the
    -- dead-letter queue. The message is due, and the server does what Redis documents.
    pub retry_lost :
        (e : KojinError) (rd : Reading W) (m : TaskMessage J) (rest : List String) (w : World W R M)
        → IsDue rd.now m.eta
        → dispatch_of k m ≡ err e
        → m.retries < m.max_retries
        → Held m rest (rd.meanwhile w.broker)
        → Dropped rest (rd.meanwhile w.broker) (execute_task k rd m w).broker
    retry_lost e rd m rest w due fails retries_left h =
        let (e', s, p) = execute_task_fails k rd w m e due fails in
        let m1 = in_state started m in
        let w1 : World W R M = record w { middleware = s } in
        let w2 = rd.meanwhile w.broker in
        let n = retried rd.failed_at m1 in
        let held_on : Held n rest w2 =
          unfold retried in
          record {
            text = h.text;
            first = h.first;
            names_id = h.names_id;
            key = h.key;
            keyed = h.keyed;
            set = h.set;
          } in
        rw (p, handle_failure-requeued k rd m1 e' w1 retries_left)
          (subst (λ (x : Broker J W). Dropped rest w2 (x.nack n w2).1) (sym on_redis)
            (nack_drops n rest w2 held_on))
