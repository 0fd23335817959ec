-- ===== src/Redis/Broker/Fifo.antt =====
-- The way of a message through the broker on Redis (kojin-redis/src/broker.rs): enqueued, moved to the
-- list of the worker that takes it, and acknowledged.
use mathlib.Core.List.{reverse, reverse-cons, append-nil, append_assoc}
use kojin.Prelude.{
  ℕ, zero, suc, ◌≡◌, ◌≢◌, refl, sym, ap, ◌∙◌, String, true, Option, none, some, List, [], ◌∷◌, ◌++◌,
  All, length, if_same, if_apart, if◌then◌else◌, string_key,
}
use kojin.Prelude.Text.{contains}
use kojin.Error.{TaskResult, ok, err}
use kojin.Message.{TaskId, TaskMessage}
use kojin.Remote.{done}
use kojin.Action.{continue}
use kojin.Serde.{MessageSerde}
use kojin.Redis.Keys.{queue, processing}
use kojin.Redis.Keys.Apart.{of_queue, of_processing, key_of, key_of_inj}
use kojin.Redis.Commands.{Commands, View, ListsDocumented}
use kojin.Redis.Broker.{
  RedisBroker, first_of_key, push, enqueue, moved, dequeue_from, dequeue, remove_first, ack,
}

module _ {J W : Type 0} (redis : Commands W) (serde : MessageSerde J) (queue_of : String → String)
    (to_string : TaskId → String) (b : RedisBroker) where
  -- The operations in a row: all messages are enqueued.
  pub enqueue_all : List (TaskMessage J) → W → W
  enqueue_all [] w = w
  enqueue_all (m ∷ ms) w = enqueue_all ms (enqueue redis serde queue_of to_string b m w).1

  abbrev acked : TaskResult (Option (TaskMessage J)) → W → W
  acked (err e) w = w
  acked (ok none) w = w
  acked (ok (some m)) w = (ack redis serde queue_of to_string b m.id w).1

  abbrev taken : TaskResult (Option (TaskMessage J)) → List (TaskMessage J)
  taken (err e) = []
  taken (ok none) = []
  taken (ok (some m)) = m ∷ []

  -- `n` times a message is dequeued, and acknowledged if there was one.
  pub serve_all : ℕ → ℕ → String → W → List (TaskMessage J) × W
  serve_all timeout zero q w = ([], w)
  serve_all timeout (suc n) q w =
      let (r, w1) = dequeue redis serde queue_of to_string b timeout (q ∷ []) [] w in
      let (ms, w2) = serve_all timeout n q (acked r w1) in (taken r ++ ms, w2)

  serve_turn :
      (timeout n : ℕ) (q : String) (m : TaskMessage J) (w w1 : W)
      → dequeue redis serde queue_of to_string b timeout (q ∷ []) [] w ≡ (ok (some m), w1)
      → let (ms, w2) = serve_all timeout n q (ack redis serde queue_of to_string b m.id w1).1 in
        serve_all timeout (suc n) q w ≡ (m ∷ ms, w2)
  unfolding serve_all
  serve_turn timeout n q m w w1 call = rw call refl

  module _ (v : View W) (documented : ListsDocumented redis v) (q : String) where
    abbrev waiting : W → List String
    waiting w = v.lists w (queue b.keys q)

    abbrev held : W → List String
    held w = v.lists w (processing b.keys b.worker_id)

    -- A message for the queue without a deduplication key, and its text, which names its id.
    pub record Plain (m : TaskMessage J) : Type 0 where
      pub on_queue : m.queue ≡ q
      pub no_key : m.dedup_key ≡ none
      pub text : String
      pub written : serde.to_text m ≡ ok text
      pub read : serde.from_text text ≡ ok m
      pub names_id : contains (to_string m.id) text ≡ true

    abbrev texts : (ms : List (TaskMessage J)) → All Plain ms → List String
    texts [] ps = []
    texts (m ∷ ms) (p, ps) = p.text ∷ texts ms ps

    keys_apart : queue b.keys q ≢ processing b.keys b.worker_id
    unfolding key_of
    keys_apart e = cc ((key_of_inj b.keys of_queue of_processing q b.worker_id e).0)

    push_written :
        (key : String) (m : TaskMessage J) (text : String) (w w' : W)
        → serde.to_text m ≡ ok text
        → redis.lpush key text w ≡ (done tt, w')
        → push redis serde queue_of to_string b key m w ≡ (ok tt, w')
    unfolding push
    push_written key m text w w' written pushed = rw (written, continue, pushed) refl

    enqueue_plain :
        (m : TaskMessage J) (w : W)
        → m.dedup_key ≡ none
        → enqueue redis serde queue_of to_string b m w
          ≡ push redis serde queue_of to_string b (queue b.keys m.queue) m w
    unfolding enqueue first_of_key
    enqueue_plain m w no_key =
        rw (documented.pool_get_lem w, continue)
          (ap
            (λ (o : Option String).
              let (set, w2) = first_of_key redis serde queue_of to_string b o w in
              if set
              then push redis serde queue_of to_string b (queue b.keys m.queue) m w2
              else (ok tt, w2))
            no_key)

    -- A message without a key is the first item of its queue's list, and nobody holds it.
    enqueued :
        (m : TaskMessage J) (w : W) (p : Plain m)
        → let w' = (enqueue redis serde queue_of to_string b m w).1 in
          (waiting w' ≡ p.text ∷ waiting w) × (held w' ≡ held w)
    enqueued m w p =
        let key = queue b.keys m.queue in
        let (w', pushed, lists) = documented.lpush_lem key p.text w in
        let same : key ≡ queue b.keys q = ap (queue b.keys) p.on_queue in
        let apart : key ≢ processing b.keys b.worker_id = λ e. keys_apart (sym same ∙ e) in
        rw (enqueue_plain m w p.no_key, push_written key m p.text w w' p.written pushed)
          (
            lists (queue b.keys q) ∙ if_same key (queue b.keys q) _ _ same,
            lists (processing b.keys b.worker_id) ∙ if_apart key _ _ _ apart,
          )

    enqueue_all-waiting :
        (ms : List (TaskMessage J)) (w : W) (ps : All Plain ms)
        → let w' = enqueue_all ms w in
          (waiting w' ≡ reverse (texts ms ps) ++ waiting w) × (held w' ≡ held w)
    unfolding enqueue_all
    enqueue_all-waiting [] w ps = (refl, refl)
    enqueue_all-waiting (m ∷ ms) w (p, ps) =
        let first = enqueued m w p in
        let rest = enqueue_all-waiting ms (enqueue redis serde queue_of to_string b m w).1 ps in
        (
          rest.0
              ∙ ap (λ l. reverse (texts ms ps) ++ l) first.0
              ∙ sym (append_assoc (reverse (texts ms ps)) (p.text ∷ []) (waiting w))
              ∙ ap (λ l. l ++ waiting w) (sym (reverse-cons p.text (texts ms ps))),
          rest.1 ∙ first.1,
        )

    -- The last item of the list is delivered and held.
    dequeued :
        (timeout : ℕ) (m : TaskMessage J) (w : W) (p : Plain m) (front : List String)
        → waiting w ≡ front ++ p.text ∷ []
        → (w' : W) × (dequeue redis serde queue_of to_string b timeout (q ∷ []) [] w
            ≡ (ok (some m), w'))
          × (waiting w' ≡ front)
          × (held w' ≡ p.text ∷ held w)
    unfolding dequeue dequeue_from moved
    dequeued timeout m w p front h =
        let (w', call, left, got) =
          documented.blmove_lem (queue b.keys q) (processing b.keys b.worker_id) p.text front
            timeout w keys_apart h in
        (w', rw (documented.pool_get_lem w, continue, call, moved, p.read) refl, left, got)

    -- The held item that comes first is removed, since it names the id.
    settled :
        (m : TaskMessage J) (w : W) (p : Plain m) (rest : List String)
        → held w ≡ p.text ∷ rest
        → let w' = (ack redis serde queue_of to_string b m.id w).1 in
          (held w' ≡ rest) × (waiting w' ≡ waiting w)
    unfolding ack remove_first
    settled m w p rest h =
        let (w', call, left, others) =
          documented.lrem_lem (processing b.keys b.worker_id) p.text rest w h in
        rw
          (
            documented.pool_get_lem w,
            continue,
            documented.lrange_lem (processing b.keys b.worker_id) w,
            h,
            remove_first,
            p.names_id,
            call,
          )
          (left, others (queue b.keys q) (λ e. keys_apart (sym e)))

    serve_all-waiting :
        (timeout : ℕ) (ms : List (TaskMessage J)) (w : W) (ps : All Plain ms)
        → waiting w ≡ reverse (texts ms ps)
        → let (served, w') = serve_all timeout (length ms) q w in
          (served ≡ ms) × (waiting w' ≡ []) × (held w' ≡ held w)
    serve_all-waiting timeout [] w ps h = unfold serve_all in (refl, h, refl)
    serve_all-waiting timeout (m ∷ ms) w (p, ps) h =
        let (w1, call, left, got) =
          dequeued timeout m w p (reverse (texts ms ps)) (h ∙ reverse-cons p.text (texts ms ps)) in
        let (freed, same) = settled m w1 p (held w) got in
        let (served, empty, held_on) =
          serve_all-waiting timeout ms (ack redis serde queue_of to_string b m.id w1).1 ps
            (same ∙ left) in
        rw (serve_turn timeout (length ms) q m w w1 call)
          (ap (λ l. m ∷ l) served, empty, held_on ∙ freed)

    -- Messages without a deduplication key that are enqueued on an empty queue are delivered in their
    -- order, one for each dequeue; when each is acknowledged before the next one is taken, the queue
    -- is empty in the end and the worker holds what it held before. No call fails, and the text of a
    -- message names its id.
    pub serve_all-enqueue_all :
        (timeout : ℕ) (ms : List (TaskMessage J)) (w : W)
        → All Plain ms
        → waiting w ≡ []
        → let (served, w') = serve_all timeout (length ms) q (enqueue_all ms w) in
          (served ≡ ms) × (waiting w' ≡ []) × (held w' ≡ held w)
    serve_all-enqueue_all timeout ms w ps h =
        let (waits, held_on) = enqueue_all-waiting ms w ps in
        let (served, empty, left) =
          serve_all-waiting timeout ms (enqueue_all ms w) ps
            (waits ∙ ap (λ l. reverse (texts ms ps) ++ l) h ∙ append-nil _) in
        (served, empty, left ∙ held_on)
