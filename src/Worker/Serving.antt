-- ===== src/Worker/Serving.antt =====
-- A worker with one permit on one queue of the broker in memory: `Worker::run` of
-- kojin-core/src/worker.rs where `concurrency` is 1 and no other task touches the broker while it
-- waits. It dequeues, executes, and goes on; one reading is used up by each turn.
use kojin.Prelude.{String, Option, none, some, List, [], ◌∷◌, ◌≡◌, refl}
use kojin.Error.{TaskResult, ok, err}
use kojin.Message.{TaskMessage}
use kojin.MemoryBroker.{MemoryBroker, dequeue, queue_at}
use kojin.MemoryBroker.Polling.{after_pop}
use kojin.MemoryBroker.Fifo.{dequeue_first}
use kojin.Worker.{Worker, World, Reading}
use kojin.Worker.Execution.{execute_task}

module _ {J C R M : Type 0} (k : Worker J C (MemoryBroker J) R M) (q : String) where
  abbrev pub Turns : Type 0
  Turns = List (Reading (MemoryBroker J))

  -- What a turn executes of the answer of `dequeue`: a timeout and an error execute nothing.
  abbrev pub popped : TaskResult (Option (TaskMessage J)) → Option (TaskMessage J)
  popped (ok o) = o
  popped (err e) = none

  abbrev pub turned :
      Reading (MemoryBroker J)
      → Option (TaskMessage J)
      → World (MemoryBroker J) R M
      → World (MemoryBroker J) R M
  turned rd none w = w
  turned rd (some m) w = execute_task k rd m w

  abbrev pub traced : Option (TaskMessage J) → List (TaskMessage J) → List (TaskMessage J)
  traced none ran = ran
  traced (some m) ran = m ∷ ran

  -- The messages that were executed, in order, and the world in the end.
  pub serve : Turns → World (MemoryBroker J) R M → List (TaskMessage J) × World (MemoryBroker J) R M
  serve [] w = ([], w)
  serve (rd ∷ rds) w =
      let (r, b) = dequeue (q ∷ []) [] w.broker in
      let (ran, w') = serve rds (turned rd (popped r) (record w { broker = b })) in
      (traced (popped r) ran, w')

  pub serve_done : (w : World (MemoryBroker J) R M) → serve [] w ≡ ([], w)
  unfolding serve
  serve_done w = refl

  -- A turn on a queue that holds messages executes the first of them.
  pub serve_first :
      (rd : Reading (MemoryBroker J)) (rds : Turns) (m : TaskMessage J)
      (rest : List (TaskMessage J)) (w : World (MemoryBroker J) R M)
      → queue_at q w.broker.queues ≡ m ∷ rest
      → let (ran, w') =
          serve rds (execute_task k rd m (record w { broker = after_pop q m rest w.broker })) in
        serve (rd ∷ rds) w ≡ (m ∷ ran, w')
  unfolding serve
  serve_first rd rds m rest w h = rw (dequeue_first q m rest w.broker h)
