-- ===== src/Examples/Workflows.antt =====
-- The theorems on workflows at concrete ones.
use kojin.Prelude.{ℕ, ◌+◌, refl, none, some, List, [], ◌∷◌, ◌++◌, ◌≡◌, String, arith}
use kojin.Prelude.Map
use kojin.Signature
use kojin.Signature.{Signature, into_message}
use kojin.Registry
use kojin.MemoryBroker
use kojin.MemoryBroker.{MemoryBroker, memory_broker, queue_at}
use kojin.MemoryBroker.Contract
use kojin.MemoryBroker.Contract.{memory_broker-IsBroker}
use kojin.MemoryResultBackend
use kojin.MemoryResultBackend.{MemoryResultBackend, memory_result_backend}
use kojin.MemoryResultBackend.Contract as Results
use kojin.MemoryResultBackend.Contract.{memory_result_backend-IsResultBackend}
use kojin.Worker.{Reading}
use kojin.Worker.Serving.{serve}
use kojin.Worker.Steps.{Runs}
use kojin.Worker.Chord.{called_back}
use kojin.Canvas.{
  chain, group, chord, single, Canvases, step, end, Fresh, flatten_chain, flatten_group, apply,
  member_message, correlated,
}
use kojin.Canvas.Chains.{Completed, apply-Completed}
use kojin.Canvas.Groups.{Started, messages, on_queue, apply-group, apply-chord}
use kojin.Message.{TaskMessage, Boxed}
use kojin.Canvas.Drawn.{Drawn, none_drawn, drawn}
use kojin.Canvas.Chords.{
  callback_of, submitted, Execution, execute_all, results_of, apply-called_back,
}
use kojin.Examples.Codec.{number_serde, number_serde-RoundTrips}
use kojin.Examples.Sample.{
  unary, unary-ShowsApart, sample_worker, hooks_pass, reading_at, empty_world,
}

abbrev fresh_ids : Fresh
fresh_ids = record { correlation_id = "c"; group_id = "g"; stamp = λ i. record { id = i; now = 1 } }

abbrev doubling : ℕ → Signature ℕ
doubling n = Signature.new "double" "default" n

doubling-Runs : (n : ℕ) → Runs sample_worker number_serde-RoundTrips "default" (doubling n)
unfolding Registry.dispatch Registry.register Signature.new Map.get Map.insert
doubling-Runs n = record {
  on_queue = refl;
  plain = refl;
  no_eta = refl;
  result = n + n;
  done = refl;
}

-- A chain with a chain in it.
abbrev nested : Canvases ℕ
nested = step (single (doubling 1)) (step (chain (step (single (doubling 2)) end)) end)

abbrev two_turns : List (Reading (MemoryBroker ℕ))
two_turns = reading_at 1 ∷ reading_at 2 ∷ []

apply-Completed_example :
    let (done, b, rb) =
      apply memory_broker
        (memory_result_backend unary)
        number_serde
        fresh_ids
        (chain nested)
        MemoryBroker.new
        MemoryResultBackend.new in
    let (ran, w') =
      serve sample_worker "default" two_turns (record empty_world { broker = b; backend = rb }) in
    Completed sample_worker number_serde-RoundTrips memory_broker-IsBroker
      (memory_result_backend unary)
      refl
      hooks_pass
      "default"
      fresh_ids
      (doubling 1)
      (doubling 2 ∷ [])
      2
      done
      ran
      w'
unfolding flatten_chain queue_at Map.get doubling-Runs
apply-Completed_example =
    apply-Completed sample_worker number_serde-RoundTrips memory_broker-IsBroker
      (memory_result_backend unary) refl hooks_pass "default" fresh_ids nested (doubling 1)
      (doubling 2 ∷ []) two_turns empty_world (doubling-Runs 1) refl (doubling-Runs 2, tt) refl refl

abbrev pair : Canvases ℕ
pair = step (single (doubling 4)) (step (single (doubling 1)) end)

apply-group_example :
    Started memory_broker
      (memory_result_backend unary)
      number_serde
      Contract.view
      (Results.view unary)
      memory_broker-IsBroker
      (memory_result_backend-IsResultBackend unary unary-ShowsApart)
      fresh_ids
      none
      (flatten_group pair)
      MemoryBroker.new
      MemoryResultBackend.new
      (apply memory_broker
        (memory_result_backend unary)
        number_serde
        fresh_ids
        (group pair)
        MemoryBroker.new
        MemoryResultBackend.new)
unfolding flatten_group
apply-group_example =
    apply-group memory_broker (memory_result_backend unary) number_serde Contract.view
      (Results.view unary) memory_broker-IsBroker
      (memory_result_backend-IsResultBackend unary unary-ShowsApart) fresh_ids pair MemoryBroker.new
      MemoryResultBackend.new (omega arith)

apply-chord_example :
    Started memory_broker
      (memory_result_backend unary)
      number_serde
      Contract.view
      (Results.view unary)
      memory_broker-IsBroker
      (memory_result_backend-IsResultBackend unary unary-ShowsApart)
      fresh_ids
      (some (callback_of fresh_ids (doubling 0)))
      (flatten_group pair)
      MemoryBroker.new
      MemoryResultBackend.new
      (apply memory_broker
        (memory_result_backend unary)
        number_serde
        fresh_ids
        (chord pair (single (doubling 0)))
        MemoryBroker.new
        MemoryResultBackend.new)
unfolding flatten_group flatten_chain
apply-chord_example =
    apply-chord memory_broker (memory_result_backend unary) number_serde Contract.view
      (Results.view unary) memory_broker-IsBroker
      (memory_result_backend-IsResultBackend unary unary-ShowsApart) fresh_ids pair
      (single (doubling 0)) (doubling 0) [] MemoryBroker.new MemoryResultBackend.new (omega arith)
      refl

abbrev finished : Boxed ℕ
finished = callback_of fresh_ids (doubling 0)

-- The messages of the two members, as the chord enqueues them.
abbrev first_member : TaskMessage ℕ
first_member = member_message fresh_ids 2 (some finished) (fresh_ids.stamp 1) (doubling 4)

abbrev second_member : TaskMessage ℕ
second_member = member_message fresh_ids 2 (some finished) (fresh_ids.stamp 2) (doubling 1)

-- The second member is executed before the first.
abbrev order : List (TaskMessage ℕ)
order = second_member ∷ first_member ∷ []

first_done : Execution sample_worker first_member
unfolding member_message correlated into_message Registry.dispatch Registry.register Signature.new
    Map.get Map.insert
first_done = record { rd = reading_at 1; result = 8; due = tt; done = refl }

second_done : Execution sample_worker second_member
unfolding member_message correlated into_message Registry.dispatch Registry.register Signature.new
    Map.get Map.insert
second_done = record { rd = reading_at 1; result = 2; due = tt; done = refl }

order-Drawn : Drawn order (messages fresh_ids 2 (some finished) 1 (doubling 4 ∷ doubling 1 ∷ []))
unfolding messages
order-Drawn = drawn (first_member ∷ []) second_member [] (drawn [] first_member [] none_drawn)

apply-called_back_example :
    let w =
      submitted sample_worker
        (memory_result_backend unary)
        fresh_ids
        (chord pair (single (doubling 0)))
        empty_world in
    let w' = execute_all sample_worker order (second_done, (first_done, tt)) w in
    ((Results.view unary).group w'.backend "g" ≡ some (2, 2 ∷ 8 ∷ []))
    × ((q : String)
        → Contract.view.waiting w'.broker q
          ≡ (Contract.view.waiting MemoryBroker.new q
              ++ on_queue q (messages fresh_ids 2 (some finished) 1 (doubling 4 ∷ doubling 1 ∷ [])))
            ++ called_back sample_worker "g" 2 finished (2 ∷ 8 ∷ []) q)
unfolding flatten_group flatten_chain first_done second_done results_of Signature.new Map.get
apply-called_back_example =
    apply-called_back sample_worker (memory_result_backend unary) Contract.view (Results.view unary)
      memory_broker-IsBroker (memory_result_backend-IsResultBackend unary unary-ShowsApart) refl
      hooks_pass fresh_ids pair (single (doubling 0)) (doubling 0) [] empty_world order
      (second_done, (first_done, tt)) (omega arith) (omega arith) refl (refl, (refl, tt))
      order-Drawn
