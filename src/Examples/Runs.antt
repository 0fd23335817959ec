-- ===== src/Examples/Runs.antt =====
-- The theorems on the loop of the worker at a short run.
use kojin.Prelude.{ℕ, ◌≡◌, ◌≤◌, refl, true, [], length}
use kojin.Prelude.Map
use kojin.Message
use kojin.Message.{TaskMessage}
use kojin.MemoryBroker.{MemoryBroker, enqueue, dequeue}
use kojin.MemoryResultBackend.{MemoryResultBackend}
use kojin.Middleware.Metrics.{MetricsMiddleware}
use kojin.Worker.Loop.{
  drained, RunState, started_with, received, Steps, here, then, go_on, acquire, receive, cancel,
}
use kojin.Worker.Loop.Permits.{Steps-in_flight}
use kojin.Worker.Loop.Shutdown.{Stopped, Steps-Stopped}
use kojin.Examples.Sample.{sample_worker, reading_at, world_with, message_of}

abbrev SampleRun : Type 0
SampleRun = RunState ℕ (MemoryBroker ℕ) (MemoryResultBackend ℕ) MetricsMiddleware

abbrev begin : SampleRun
begin = started_with 2 (world_with (message_of "double" 3))

record Reached : Type 0 where
  state : SampleRun
  steps : Steps sample_worker begin state
  cancelled : state.cancelled ≡ true

-- A message is taken, then the token is cancelled.
taken : Reached
taken = record {
  state = _;
  steps =
      then (then (then (then here (go_on refl refl)) (acquire 1 refl refl)) (receive [] refl))
        cancel;
  cancelled = refl;
}

Steps-in_flight_example :
    (length taken.state.in_flight ≤ 2) × (taken.state.phase ≡ drained → taken.state.in_flight ≡ [])
Steps-in_flight_example =
    Steps-in_flight sample_worker (world_with (message_of "double" 3)) taken.state taken.steps

Steps-Stopped_example : Stopped sample_worker (reading_at 1) taken.state
unfolding taken received dequeue enqueue Message.new Map.get Map.insert
Steps-Stopped_example =
    Steps-Stopped sample_worker (reading_at 1) (world_with (message_of "double" 3)) taken.state
      taken.steps taken.cancelled tt
