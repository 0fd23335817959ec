-- ===== src/Amqp/Inspection.antt =====
-- What a look at the dead-letter queue shows: `dlq_messages` of kojin-amqp/src/broker.rs.
use mathlib.Core.List.{append-nil, append_assoc}
use kojin.Prelude.{
  ℕ, zero, suc, ◌≡◌, refl, sym, ap, ◌∙◌, String, true, some, List, [], ◌∷◌, ◌++◌, replicate,
}
use kojin.Error.{ok}
use kojin.Message.{TaskMessage}
use kojin.Remote.{done}
use kojin.Action.{continue}
use kojin.Serde.{MessageSerde}
use kojin.Amqp.Config.{AmqpConfig}
use kojin.Amqp.Calls.{Lapin, View, Documented, Channel}
use kojin.Amqp.Topology.{dlq_name}
use kojin.Amqp.{AmqpBroker, inspect, kept, dlq_messages}

module _ {J W : Type 0} (lapin : Lapin W) (v : View W) (documented : Documented lapin v)
    (serde : MessageSerde J) (config : AmqpConfig) where
  -- One `basic_get` and the requeuing after it: the queue is as before.
  looked :
      (ch : Channel) (name payload : String) (rest : List String) (w : W)
      → v.ready w name ≡ payload ∷ rest
      → (tag : ℕ) × (w1 w2 : W) × (lapin.basic_get ch name w
          ≡ (done (some (record { delivery_tag = tag; payload = payload })), w1))
        × (lapin.basic_nack ch tag true w1 ≡ (done tt, w2))
        × (v.ready w2 name ≡ payload ∷ rest)
  looked ch name payload rest w h =
      let (tag, w1, got, out, left) = documented.get_lem ch name payload rest w h in
      let (w2, nacked, back) = documented.requeue_lem ch tag name payload w1 out in
      (tag, w1, w2, got, nacked, back ∙ ap (λ l. payload ∷ l) left)

  module _ (name payload : String) (rest : List String) (m : TaskMessage J)
      (reads : serde.from_text payload ≡ ok m) where
    -- Whatever was skipped or kept, the first message is the one that is looked at next.
    inspect-replicate :
        (ch : Channel) (skip limit : ℕ) (messages : List (TaskMessage J)) (b : AmqpBroker J W)
        → v.ready b.server name ≡ payload ∷ rest
        → (w' : W) × (inspect lapin serde config ch name skip limit messages b
            ≡ (ok (messages ++ replicate limit m), record b { server = w' }))
          × (v.ready w' name ≡ payload ∷ rest)
    unfolding inspect kept
    inspect-replicate ch zero zero messages b h =
        (b.server, ap (λ l. (ok l, b)) (sym (append-nil messages)), h)
    inspect-replicate ch (suc skip) limit messages b h =
        let (tag, w1, w2, got, nacked, back) = looked ch name payload rest b.server h in
        let (w', r, end) =
          inspect-replicate ch skip limit messages (record b { server = w2 }) back in
        (w', rw (got, continue, nacked) r, end)
    inspect-replicate ch zero (suc limit) messages b h =
        let (tag, w1, w2, got, nacked, back) = looked ch name payload rest b.server h in
        let (w', r, end) =
          inspect-replicate ch zero limit (messages ++ m ∷ []) (record b { server = w2 }) back in
        (
          w',
          rw (got, continue, nacked, reads, kept)
              (r ∙ ap (λ l. (ok l, record b { server = w' })) (append_assoc messages (m ∷ []) _)),
          end,
        )

  -- While messages are dead, a page of the dead-letter queue shows the first of them `limit` times,
  -- whatever the offset, as long as no call of the server fails: each message that is looked at is
  -- requeued before the next one is got, and RabbitMQ puts it back to its place. The queue is left
  -- as it was.
  pub dlq_messages-replicate :
      (queue payload : String) (rest : List String) (m : TaskMessage J) (offset limit : ℕ)
      (b : AmqpBroker J W)
      → serde.from_text payload ≡ ok m
      → v.ready b.server (dlq_name queue) ≡ payload ∷ rest
      → ((dlq_messages lapin serde config queue offset limit b).0 ≡ ok (replicate limit m))
        × (v.ready (dlq_messages lapin serde config queue offset limit b).1.server (dlq_name queue)
            ≡ payload ∷ rest)
  unfolding dlq_messages
  dlq_messages-replicate queue payload rest m offset limit b reads h =
      let (ch, w1, opened, same) = documented.channel_lem b.server in
      let (w', r, end) =
        inspect-replicate (dlq_name queue) payload rest m reads ch offset limit []
          (record b { server = w1 }) (same (dlq_name queue) ∙ h) in
      rw (opened, continue, r) (refl, end)
