-- ===== src/Sqs/Redelivery.antt =====
-- What the broker on SQS does with a message that a worker gives back.
use kojin.Prelude.{
  ℕ, min, ◌≡◌, refl, sym, ap, subst, ◌∙◌, String, some, List, [], ◌∷◌, ◌++◌, length, nat_key,
}
use kojin.Prelude.Map
use kojin.Prelude.Map.{get-insert_self}
use kojin.Error.{KojinError, ok}
use kojin.Message.{TaskId, TaskMessage}
use kojin.Action.{continue}
use kojin.Serde.{MessageSerde}
use kojin.Worker.{Worker, World, Reading}
use kojin.Broker.{Broker}
use kojin.Worker.Redelivery.{Redelivers, rounds, Endless, IsFailing, rounds-Endless}
use kojin.Sqs.Queues.{SqsConfig, resolve_queue_url}
use kojin.Sqs.Requests.{Client, View, Documented}
use kojin.Sqs.{
  SqsBroker, ask, keep_receipt, received, dequeue_from, dequeue, poll_queue, nack, sqs_broker, sent,
  forget,
}

module _ {J W : Type 0} (client : Client W) (v : View W) (serde : MessageSerde J)
    (to_string : TaskId → String) (config : SqsConfig) (url : String) (m : TaskMessage J)
    (body : String) where
  -- The server holds the message alone on its queue; a worker holds it under a receipt.
  abbrev pub Ready : SqsBroker W → Type 0
  Ready b = v.visible b.server url ≡ body ∷ []

  pub record Lent (b : SqsBroker W) : Type 0 where
    pub handle : String
    pub receipt : Map.get m.id b.receipts ≡ some (url, handle)
    pub in_flight : v.in_flight b.server url handle ≡ some body
    pub alone : v.visible b.server url ≡ []

  nack_held :
      (n : TaskMessage J) (b : SqsBroker W) (u handle : String)
      → Map.get n.id b.receipts ≡ some (u, handle)
      → nack client serde to_string config n b
        ≡ sent (client.change_message_visibility u handle 0) (forget n.id b)
  unfolding nack
  nack_held n b u handle h = rw (h, nack)

  module _ (documented : Documented client v) (reads : serde.from_text body ≡ ok m) (q : String)
      (resolves : resolve_queue_url config q ≡ some url) (timeout : ℕ) where
    delivers_one :
        (b : SqsBroker W)
        → Ready b
        → (b' : SqsBroker W) × (dequeue client serde to_string config timeout (q ∷ []) [] b
            ≡ (ok (some m), b'))
          × Lent b'
    unfolding dequeue dequeue_from poll_queue received keep_receipt
    delivers_one b ready =
        let (handle, w', call, flight, alone) =
          documented.receive (ask config url (min timeout config.wait_time_seconds)) body b.server
            ready in
        (
          record { server = w'; receipts = Map.insert m.id (url, handle) b.receipts },
          rw
              (
                resolves, dequeue, dequeue_from, poll_queue, call, continue, received, reads,
                keep_receipt,
              )
              refl,
          record {
            handle = handle;
            receipt = get-insert_self m.id (url, handle) b.receipts;
            in_flight = flight;
            alone = alone;
          },
        )

    taken_back :
        (n : TaskMessage J) (b : SqsBroker W)
        → n.id ≡ m.id
        → Lent b
        → Ready (nack client serde to_string config n b).1
    unfolding forget
    taken_back n b same lent =
        let (w', call, visible) =
          documented.make_visible url lent.handle body b.server lent.in_flight in
        let receipt = ap (λ i. Map.get i b.receipts) same ∙ lent.receipt in
        rw (nack_held n b url lent.handle receipt, call)
          (visible ∙ ap (λ l. l ++ body ∷ []) lent.alone)

    pub sqs_broker-Redelivers :
        Redelivers (sqs_broker client serde to_string config timeout) q [] m Ready Lent
    sqs_broker-Redelivers = record { delivers = delivers_one; takes_back = taken_back }

    module _ {C R M : Type 0} (k : Worker J C (SqsBroker W) R M)
        (on_sqs : k.broker ≡ sqs_broker client serde to_string config timeout) where
      worker-Redelivers : Redelivers k.broker q [] m Ready Lent
      worker-Redelivers =
          subst (λ (b : Broker J (SqsBroker W)). Redelivers b q [] m Ready Lent) (sym on_sqs)
            sqs_broker-Redelivers

      -- A worker on SQS never gives up a message that fails and has a retry left, as long as the
      -- server does what SQS documents: `nack` does not send the message that counts the retry, so
      -- in any number of turns every turn executes the message as it was first sent, with its
      -- retries as they were and after the same backoff, and the message is on the queue in the end.
      pub never_given_up :
          (e : KojinError) (rds : List (Reading (SqsBroker W))) (w : World (SqsBroker W) R M)
          → IsFailing k q [] m e rds
          → Ready w.broker
          → Endless k q [] m Ready (length rds) w (rounds k q [] rds w).0 (rounds k q [] rds w).1
      never_given_up e rds w f ready =
          rounds-Endless k q [] m Ready Lent worker-Redelivers e rds w f ready
