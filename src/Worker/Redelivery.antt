-- ===== src/Worker/Redelivery.antt =====
-- A worker with one permit on any broker, as in kojin-core/src/worker.rs, and a broker that answers
-- `nack` by delivering again what it delivered before, whatever message it was given.
use mathlib.Core.List.{append-nil, append_assoc}
use kojin.Prelude.{
  ℕ, ◌<◌, ◌≡◌, refl, sym, ap, subst, ◌∙◌, String, Option, none, some, List, [], ◌∷◌, ◌++◌, All,
  length, replicate,
}
use kojin.Error.{KojinError, TaskResult, ok, err}
use kojin.TaskState.{started}
use kojin.Message.{TaskMessage}
use kojin.Broker.{Broker}
use kojin.Worker.{Worker, World, Reading}
use kojin.Worker.Messages.{in_state, retried}
use kojin.Worker.Execution.{execute_task}
use kojin.Worker.Completion.{IsDue, dispatch_of, execute_task_fails}
use kojin.Worker.Failure.{backoff, requeued, handle_failure-requeued}

-- `Ready` are the states where the broker has the message and nothing else to deliver on the queue
-- `q`, `Lent` those where the worker holds it.
pub record Redelivers {J S : Type 0} (b : Broker J S) (q : String) (wakes : List (S → S))
    (m : TaskMessage J) (Ready Lent : S → Type 0) : Type 0 where
  pub delivers :
      (s : S) → Ready s → (s' : S) × (b.dequeue (q ∷ []) wakes s ≡ (ok (some m), s')) × Lent s'
  pub takes_back : (n : TaskMessage J) (s : S) → n.id ≡ m.id → Lent s → Ready (b.nack n s).1

module _ {J C S R M : Type 0} (k : Worker J C S R M) (q : String) (wakes : List (S → S)) where
  abbrev turned : Reading S → TaskResult (Option (TaskMessage J)) → World S R M → World S R M
  turned rd (err e) w = w
  turned rd (ok none) w = w
  turned rd (ok (some m)) w = execute_task k rd m w

  abbrev traced : TaskResult (Option (TaskMessage J)) → List (TaskMessage J) → List (TaskMessage J)
  traced (err e) ran = ran
  traced (ok none) ran = ran
  traced (ok (some m)) ran = m ∷ ran

  -- One reading is used up by each turn; `wakes` is what happens to the broker while a dequeue waits.
  pub rounds : List (Reading S) → World S R M → List (TaskMessage J) × World S R M
  rounds [] w = ([], w)
  rounds (rd ∷ rds) w =
      let (r, b) = k.broker.dequeue (q ∷ []) wakes w.broker in
      let (ran, w') = rounds rds (turned rd r (record w { broker = b })) in (traced r ran, w')

  rounds_done : (w : World S R M) → rounds [] w ≡ ([], w)
  unfolding rounds
  rounds_done w = refl

  pub record Endless (m : TaskMessage J) (Ready : S → Type 0) (n : ℕ) (w : World S R M)
      (ran : List (TaskMessage J)) (w' : World S R M) : Type 0 where
    pub executions : ran ≡ replicate n m
    pub ready : Ready w'.broker
    pub slept : w'.slept ≡ w.slept ++ replicate n (backoff m.retries)

  -- The message fails whenever it is executed, may be retried, and no other task touches the broker
  -- during a backoff.
  pub record IsFailing (m : TaskMessage J) (e : KojinError) (rds : List (Reading S)) : Type 0 where
    pub fails : dispatch_of k m ≡ err e
    pub retries_left : m.retries < m.max_retries
    pub due : All (λ (rd : Reading S). IsDue rd.now m.eta) rds
    pub quiet : All (λ (rd : Reading S). (s : S) → rd.meanwhile s ≡ s) rds

  module _ (m : TaskMessage J) (Ready Lent : S → Type 0)
      (again : Redelivers k.broker q wakes m Ready Lent) where
    -- A turn ends with the message where it was.
    turn :
        (e : KojinError) (rd : Reading S) (rds : List (Reading S)) (w : World S R M)
        → IsFailing m e (rd ∷ rds)
        → Ready w.broker
        → (w2 : World S R M) × (let (ran, w') = rounds rds w2 in
            rounds (rd ∷ rds) w ≡ (m ∷ ran, w'))
          × Ready w2.broker
          × (w2.slept ≡ w.slept ++ backoff m.retries ∷ [])
    unfolding rounds
    turn e rd rds w f ready =
        let (s1, d, lent) = again.delivers w.broker ready in
        let w1 : World S R M = record w { broker = s1 } in
        let (e', s, p) = execute_task_fails k rd w1 m e f.due.0 f.fails in
        let w1' : World S R M = record w1 { middleware = s } in
        let m1 = in_state started m in
        let back : Ready (k.broker.nack (retried rd.failed_at m1) (rd.meanwhile s1)).1 =
          unfold retried in again.takes_back _ _ refl (subst Lent (sym (f.quiet.0 s1)) lent) in
        (
          requeued k rd m1 e' w1',
          rw (d, turned, traced, p, handle_failure-requeued k rd m1 e' w1' f.retries_left) refl,
          back,
          refl,
        )

    -- On such a broker a message that fails and has a retry left is never given up: in any number
    -- of turns every turn executes the very message that was sent, with its retries as they were and
    -- after the same backoff, and in the end the broker has it still.
    pub rounds-Endless :
        (e : KojinError) (rds : List (Reading S)) (w : World S R M)
        → IsFailing m e rds
        → Ready w.broker
        → Endless m Ready (length rds) w (rounds rds w).0 (rounds rds w).1
    rounds-Endless e [] w f ready =
        rw (rounds_done w)
          (record { executions = refl; ready = ready; slept = sym (append-nil w.slept) })
    rounds-Endless e (rd ∷ rds) w f ready =
        let (w2, p, ready2, slept2) = turn e rd rds w f ready in
        let left : IsFailing m e rds = record {
          fails = f.fails;
          retries_left = f.retries_left;
          due = f.due.1;
          quiet = f.quiet.1;
        } in
        let rest = rounds-Endless e rds w2 left ready2 in
        rw p (record {
          executions = ap (◌∷◌ m) rest.executions;
          ready = rest.ready;
          slept =
              rest.slept
              ∙ ap (λ l. l ++ replicate (length rds) (backoff m.retries)) slept2
              ∙ append_assoc w.slept (backoff m.retries ∷ []) _;
        })
