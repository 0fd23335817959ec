-- ===== src/Examples/Executions.antt =====
-- The theorems on the worker at a concrete worker.
use kojin.Prelude.{arith, ◌+◌, ℕ, ◌≡◌, refl, some, List, [], ◌∷◌}
use kojin.Prelude.Map
use kojin.Error.{task_failed}
use kojin.Message
use kojin.Message.{TaskMessage, Stamp, Boxed, box}
use kojin.Signature
use kojin.Signature.{Signature}
use kojin.Broker.{LetsGo}
use kojin.ResultBackend.{ResultSet}
use kojin.MemoryBroker
use kojin.MemoryBroker.{memory_broker, queue_at, enqueue}
use kojin.MemoryBroker.Contract
use kojin.MemoryBroker.Contract.{memory_broker-IsBroker}
use kojin.MemoryResultBackend
use kojin.MemoryResultBackend.{memory_result_backend, init_group}
use kojin.MemoryResultBackend.Contract as Results
use kojin.MemoryResultBackend.Contract.{memory_result_backend-IsResultBackend}
use kojin.Registry
use kojin.Worker.{Reading, chain_next}
use kojin.Worker.Execution.{execute_task}
use kojin.Worker.Serving.{serve}
use kojin.Worker.Tallies.{tallied, execute_task-tallied}
use kojin.Worker.Completion.{dispatch_of}
use kojin.Worker.Retries.{IsFailing, Exhausted, serve-Exhausted}
use kojin.Worker.Success.{execute_task_settles}
use kojin.Worker.Steps.{Executed, Runs, run_chain}
use kojin.Worker.Chord.{Turn, run, called_back, Counted, run_members}
use kojin.Worker.Eta.{Untouched, serve_spins}
use kojin.Examples.Codec.{number_serde-RoundTrips}
use kojin.Examples.Sample.{
  unary, unary-ShowsApart, sample_worker, SampleWorld, hooks_pass, reading_at, empty_world,
  world_with, message_of,
}

abbrev broken_message : TaskMessage ℕ
broken_message = Message.with_max_retries (message_of "broken" 5) 2

abbrev three_turns : List (Reading (MemoryBroker.MemoryBroker ℕ))
three_turns = reading_at 1 ∷ reading_at 2 ∷ reading_at 3 ∷ []

broken-IsFailing :
    IsFailing sample_worker memory_broker-IsBroker "default" broken_message
      (task_failed "broken")
      three_turns
unfolding Registry.dispatch Registry.register Message.new Message.with_max_retries Map.get
    Map.insert
broken-IsFailing = record {
  on_queue = refl;
  fails = refl;
  due = (tt, (tt, (tt, tt)));
  quiet = (λ b. refl, (λ b. refl, (λ b. refl, tt)));
}

broken_waits : queue_at "default" (world_with broken_message).broker.queues ≡ broken_message ∷ []
unfolding enqueue queue_at Message.new Message.with_max_retries Map.get Map.insert
broken_waits = refl

serve-Exhausted_example :
    Exhausted sample_worker memory_broker-IsBroker "default" broken_message 2
      (world_with broken_message)
      (serve sample_worker "default" three_turns (world_with broken_message)).0
      (serve sample_worker "default" three_turns (world_with broken_message)).1
unfolding Message.new Message.with_max_retries
serve-Exhausted_example =
    serve-Exhausted sample_worker memory_broker-IsBroker "default" broken_message
      (task_failed "broken") 2 three_turns (world_with broken_message) broken-IsFailing refl refl
      broken_waits

execute_task_settles_example :
    LetsGo Contract.view 7 empty_world.broker
      (execute_task sample_worker (reading_at 1) (message_of "double" 21) empty_world).broker
    × ResultSet
        (Results.view unary)
        7
        (some 42)
        empty_world.backend
        (execute_task sample_worker (reading_at 1) (message_of "double" 21) empty_world).backend
unfolding Registry.dispatch Registry.register Message.new Map.get Map.insert
execute_task_settles_example =
    execute_task_settles sample_worker (memory_result_backend unary) Contract.view
      (Results.view unary) memory_broker-IsBroker
      (memory_result_backend-IsResultBackend unary unary-ShowsApart) (reading_at 1)
      (message_of "double" 21) 42 empty_world refl tt (hooks_pass _ _) refl

-- A chain of two steps: the first message, and a signature that follows it.
abbrev second : Signature ℕ
second = Signature.new "double" "default" 4

abbrev chain_turns : List (Reading (MemoryBroker.MemoryBroker ℕ))
chain_turns = reading_at 1 ∷ reading_at 2 ∷ []

abbrev first_message : TaskMessage ℕ
first_message =
    Message.with_header (message_of "double" 3) chain_next
      (number_serde-RoundTrips.signatures (second ∷ [])).0

second-Runs : Runs sample_worker number_serde-RoundTrips "default" second
unfolding Registry.dispatch Registry.register Signature.new Map.get Map.insert
second-Runs = record { on_queue = refl; plain = refl; no_eta = refl; result = 8; done = refl }

run_chain_example :
    Executed sample_worker number_serde-RoundTrips first_message 6
      (second ∷ [])
      (serve sample_worker "default" chain_turns (world_with first_message)).0
    × (queue_at "default"
          (serve sample_worker "default" chain_turns (world_with first_message)).1.broker.queues
        ≡ [])
unfolding Registry.dispatch Registry.register Message.new Message.with_header Map.get Map.insert
    enqueue queue_at
run_chain_example =
    run_chain sample_worker number_serde-RoundTrips memory_broker-IsBroker
      (memory_result_backend unary) refl hooks_pass "default" first_message 6 (second ∷ [])
      chain_turns (world_with first_message)
      (
        (number_serde-RoundTrips.signatures (second ∷ [])).0,
        refl,
        (number_serde-RoundTrips.signatures (second ∷ [])).2,
      )
      refl refl refl (second-Runs, tt) refl refl

-- A chord of two members with one callback.
abbrev callback_message : Boxed ℕ
callback_message = box (message_of "double" 0)

abbrev member : ℕ → TaskMessage ℕ
member payload =
    Message.with_chord_callback (Message.with_group (message_of "double" payload) "g" 2)
      (message_of "double" 0)

abbrev member_turn : ℕ → Turn sample_worker "g" 2 callback_message
unfolding Registry.dispatch Registry.register Message.new Message.with_group
    Message.with_chord_callback Map.get Map.insert
member_turn payload = record {
  rd = reading_at 1;
  message = member payload;
  result = payload + payload;
  in_group = refl;
  of_total = refl;
  calls_back = refl;
  unchained = refl;
  due = tt;
  done = refl;
}

abbrev both_turns : List (Turn sample_worker "g" 2 callback_message)
both_turns = member_turn 4 ∷ member_turn 1 ∷ []

abbrev chord_world : SampleWorld
chord_world = record empty_world { backend = (init_group "g" 2 MemoryResultBackend.new).1 }

run_members_example :
    Counted sample_worker
      (memory_result_backend unary)
      Contract.view
      (Results.view unary)
      memory_broker-IsBroker
      (memory_result_backend-IsResultBackend unary unary-ShowsApart)
      refl
      hooks_pass
      "g"
      2
      callback_message
      2
      (8 ∷ 2 ∷ [])
      (called_back sample_worker "g" 2 callback_message (8 ∷ 2 ∷ []))
      chord_world
      (run sample_worker "g" 2 callback_message both_turns chord_world)
unfolding init_group Map.get Map.insert member_turn
run_members_example =
    run_members sample_worker (memory_result_backend unary) Contract.view (Results.view unary)
      memory_broker-IsBroker (memory_result_backend-IsResultBackend unary unary-ShowsApart) refl
      hooks_pass "g" 2 callback_message both_turns 0 [] chord_world refl (omega arith) (omega arith)
      (omega arith)

-- A message for the time 10.
abbrev later_message : TaskMessage ℕ
later_message = Message.with_eta (message_of "double" 5) 10

serve_spins_example :
    Untouched sample_worker refl "default" later_message 3
      (world_with later_message)
      (serve sample_worker "default" three_turns (world_with later_message)).0
      (serve sample_worker "default" three_turns (world_with later_message)).1
unfolding enqueue queue_at Message.new Message.with_eta Map.get Map.insert
serve_spins_example =
    serve_spins sample_worker refl "default" later_message 10 three_turns (world_with later_message)
      refl refl (omega arith, (omega arith, (omega arith, tt))) refl

execute_task-tallied_example :
    (execute_task sample_worker (reading_at 1) (message_of "double" 21) empty_world).middleware
    ≡ tallied (dispatch_of sample_worker (message_of "double" 21)) empty_world.middleware
unfolding Message.new
execute_task-tallied_example =
    execute_task-tallied sample_worker refl (reading_at 1) (message_of "double" 21) empty_world tt
