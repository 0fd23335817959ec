-- ===== src/Worker/Loop.antt =====
-- kojin-core/src/worker.rs, `Worker::run`: the loop with its permits, the tasks that it spawns and
-- its shutdown, as a step relation. An await point is where the steps of the loop, of the spawned
-- tasks and of whoever holds the cancellation token interleave; the execution of a task is one step,
-- since what other tasks do during it is in its reading. The semaphore is never closed, and what
-- only takes time (the pause after a failed dequeue, the pauses while draining) is no step.
pub mod Permits
pub mod Shutdown
use kojin.Prelude.{
  ℕ, suc, ◌+◌, ◌≡◌, String, Bool, true, false, Option, none, some, List, [], ◌∷◌, ◌++◌,
}
use kojin.Error.{TaskResult, ok, err}
use kojin.Message.{TaskMessage}
use kojin.Worker.{Worker, World, Reading}
use kojin.Worker.Execution.{execute_task}

-- Where the loop stands: at the check of the token, at the acquisition of a permit, at the dequeue
-- with a permit in its hand, in the drain loop, or done with every task finished or at the deadline.
pub data Phase : Type 0 where
  checking acquiring holding draining drained timed_out : Phase

pub record RunState (J S R M : Type 0) : Type 0 where
  pub phase : Phase
  pub available_permits : ℕ
  pub in_flight : List (TaskMessage J)
  pub cancelled : Bool
  pub world : World S R M

module _ {J S R M : Type 0} where
  -- Semaphore::new(self.config.concurrency)
  abbrev pub started_with : ℕ → World S R M → RunState J S R M
  started_with concurrency w = record {
    phase = checking;
    available_permits = concurrency;
    in_flight = [];
    cancelled = false;
    world = w;
  }

  -- The match on the answer of the broker: a message is spawned with the permit, a timeout and an
  -- error drop the permit.
  unfoldable pub received :
      TaskResult (Option (TaskMessage J)) → RunState J S R M → RunState J S R M
  received (ok (some m)) s = record s { phase = checking; in_flight = s.in_flight ++ m ∷ [] }
  received (ok none) s = record s { phase = checking; available_permits = s.available_permits + 1 }
  received (err e) s = record s { phase = checking; available_permits = s.available_permits + 1 }

module _ {J C S R M : Type 0} (k : Worker J C S R M) where
  pub data Step (s : RunState J S R M) : RunState J S R M → Type 0 where
    cancel : Step s (record s { cancelled = true })
    go_on : s.phase ≡ checking → s.cancelled ≡ false → Step s (record s { phase = acquiring })
    break_at_check :
        s.phase ≡ checking → s.cancelled ≡ true → Step s (record s { phase = draining })
    acquire :
        (n : ℕ)
        → s.phase ≡ acquiring
        → s.available_permits ≡ suc n
        → Step s (record s { phase = holding; available_permits = n })
    break_at_acquire :
        s.phase ≡ acquiring → s.cancelled ≡ true → Step s (record s { phase = draining })
    receive :
        (wakes : List (S → S))
        → s.phase ≡ holding
        → Step s (
            let (r, b) = k.broker.dequeue k.config.queues wakes s.world.broker in
            received r (record s { world = record s.world { broker = b } }))
    break_at_dequeue :
        s.phase ≡ holding
        → s.cancelled ≡ true
        → Step s (record s { phase = draining; available_permits = s.available_permits + 1 })
    finish :
        (rd : Reading S) (before : List (TaskMessage J)) (m : TaskMessage J)
        (after : List (TaskMessage J))
        → s.in_flight ≡ before ++ m ∷ after
        → Step s (record s {
          in_flight = before ++ after;
          available_permits = s.available_permits + 1;
          world = execute_task k rd m s.world;
        })
    all_available :
        s.phase ≡ draining
        → s.available_permits ≡ k.config.concurrency
        → Step s (record s { phase = drained })
    deadline : s.phase ≡ draining → Step s (record s { phase = timed_out })

  pub data Steps (s : RunState J S R M) : RunState J S R M → Type 0 where
    here : Steps s s
    then : {t u : RunState J S R M} → Steps s t → Step t u → Steps s u
