-- ===== src/Dashboard/Inspection.antt =====
-- What the dashboard shows of a task that a worker has given up, with the broker in memory. The
-- listing of the dead letters is the one of kojin-core/src/memory_broker.rs, oldest first; the other
-- brokers list theirs in another order, or not at all.
use kojin.Prelude.{
  ℕ, zero, suc, ◌+◌, ◌≤◌, ◌≡◌, refl, sym, subst, ap, ap₂, ◌∙◌, String, List, [], ◌∷◌, ◌++◌, take,
  drop, length, string_key, if_same, length-append,
}
use kojin.Error.{KojinError, err}
use kojin.TaskState.{started}
use kojin.Message.{TaskMessage}
use kojin.MemoryBroker
use kojin.MemoryBroker.{MemoryBroker, memory_broker}
use kojin.MemoryBroker.Contract.{view, memory_broker-IsBroker}
use kojin.Broker.{Broker}
use kojin.Worker.{Worker, World, Reading, run_on_error}
use kojin.Worker.Messages.{in_state, buried}
use kojin.Worker.Execution.{execute_task}
use kojin.Worker.Completion.{IsDue, dispatch_of, execute_task_fails}
use kojin.Worker.Failure.{handle_failure-given_up}
use kojin.Dashboard.{DashboardState, Shared, json, page, get_dlq, detailed, get_queue}
use kojin.Dashboard.Lookup.{shared}

drop-length : {A : Type 0} → (l r : List A) → drop (length l) (l ++ r) ≡ r
drop-length [] r = refl
drop-length (x ∷ l) r = drop-length l r

take_one : {A : Type 0} → (more : ℕ) (x : A) → take (suc more) (x ∷ []) ≡ x ∷ []
take_one zero x = refl
take_one (suc more) x = refl

module _ {J R M : Type 0} (d : DashboardState J (MemoryBroker J) R M)
    (in_memory : d.broker ≡ memory_broker) where
  get_dlq-page :
      (q : String) (offset limit : ℕ) (w : Shared (MemoryBroker J) R M)
      → (get_dlq d q (record { offset = offset; limit = limit }) w).0
        ≡ json (take limit (drop offset (view.dead w.broker q)))
  unfolding get_dlq page MemoryBroker.dlq_messages
  get_dlq-page q offset limit w = rw (in_memory, page) refl

  get_queue-lengths :
      (q : String) (w : Shared (MemoryBroker J) R M)
      → (get_queue d q w).0
        ≡ json (record {
          name = q;
          length = length (view.waiting w.broker q);
          dlq_length = length (view.dead w.broker q);
        })
  unfolding get_queue detailed MemoryBroker.queue_len MemoryBroker.dlq_len
  get_queue-lengths q w = rw (in_memory, detailed, in_memory) refl

  -- The page after the end of a dead-letter queue, and the lengths.
  Shown : TaskMessage J → MemoryBroker J → ℕ → Shared (MemoryBroker J) R M → Type 0
  Shown n s more w =
      let ended = length (view.dead s n.queue) in
      ((get_dlq d n.queue (record { offset = ended; limit = suc more }) w).0 ≡ json (n ∷ []))
      × ((get_queue d n.queue w).0
          ≡ json (record {
            name = n.queue;
            length = length (view.waiting s n.queue);
            dlq_length = ended + 1;
          }))

  dead_letter-Shown :
      (n : TaskMessage J) (more : ℕ) (s : MemoryBroker J) (r : R) (x : M)
      → Shown n s more
          (record { broker = (memory_broker.dead_letter n s).1; backend = r; middleware = x })
  unfolding Shown
  dead_letter-Shown n more s r x =
      let w : Shared (MemoryBroker J) R M = record {
        broker = (memory_broker.dead_letter n s).1;
        backend = r;
        middleware = x;
      } in
      let dies = memory_broker-IsBroker.dead_letter_dies n s in
      let dead = view.dead s n.queue in
      let after : view.dead w.broker n.queue ≡ dead ++ n ∷ [] =
        dies.dead n.queue ∙ if_same n.queue n.queue _ _ refl in
      let waiting = dies.waiting n.queue in
      (
        get_dlq-page n.queue (length dead) (suc more) w
            ∙ ap (λ l. json (take (suc more) (drop (length dead) l))) after
            ∙ ap (λ l. json (take (suc more) l)) (drop-length dead (n ∷ []))
            ∙ ap json (take_one more n),
        get_queue-lengths n.queue w
            ∙ ap₂ (λ i j. json (record { name = n.queue; length = i; dlq_length = j }))
                (ap (λ l. length l) waiting)
                (ap (λ l. length l) after ∙ length-append dead (n ∷ [])),
      )

  -- With the broker in memory, which the worker and the dashboard share: when a task fails that has
  -- no retry left, the dashboard shows its message as the last one of the dead-letter queue: the page that starts where that queue ended before holds the message alone, in
  -- the state of a dead letter, and the detail of the queue counts one more dead letter and as many
  -- waiting messages as before.
  pub get_dlq-buried :
      {C : Type 0} (k : Worker J C (MemoryBroker J) R M) (rd : Reading (MemoryBroker J))
      (m : TaskMessage J) (e : KojinError) (w : World (MemoryBroker J) R M) (more : ℕ)
      → k.broker ≡ memory_broker
      → IsDue rd.now m.eta
      → dispatch_of k m ≡ err e
      → m.max_retries ≤ m.retries
      → let ended = length (view.dead w.broker m.queue) in
        let w' = shared (execute_task k rd m w) in
        ((get_dlq d m.queue (record { offset = ended; limit = suc more }) w').0
          ≡ json (buried rd.failed_at (in_state started m) ∷ []))
        × ((get_queue d m.queue w').0
            ≡ json (record {
              name = m.queue;
              length = length (view.waiting w.broker m.queue);
              dlq_length = ended + 1;
            }))
  unfolding Shown buried
  get_dlq-buried k rd m e w more same due fails exhausted =
      let (e', s, p) = execute_task_fails k rd w m e due fails in
      let m1 = in_state started m in
      let n = buried rd.failed_at m1 in
      let w1 : World (MemoryBroker J) R M = record w { middleware = s } in
      let r = run_on_error k.middlewares m1 e' s in
      rw (p, handle_failure-given_up k rd m1 e' w1 exhausted)
        (subst
          (λ (b : Broker J (MemoryBroker J)).
            Shown n w.broker more (record {
              broker = (b.dead_letter n w.broker).1;
              backend = w.backend;
              middleware = r;
            }))
          (sym same) (dead_letter-Shown n more w.broker w.backend r))
