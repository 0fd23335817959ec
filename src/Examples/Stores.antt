-- ===== src/Examples/Stores.antt =====
-- The theorems on the brokers, result backends, middlewares and helpers at concrete inputs.
use kojin.Prelude.{arith, ◌≡◌, refl, ℕ, List, [], ◌∷◌, min, ◌*◌, ◌^◌, string_key}
use kojin.Error.{err, duplicate}
use kojin.Prelude.Map
use kojin.Message
use kojin.Message.{TaskId, TaskMessage, DateTime}
use kojin.Backoff.{delay_for, exponential}
use kojin.Backoff.Cap.{delay_for-eq-min}
use kojin.ResultBackend.{IsResultBackend}
use kojin.MemoryBroker
use kojin.MemoryBroker.{
  MemoryBroker, queue_at, dequeue, enqueue, dead_letter, dlq_len, memory_broker,
}
use kojin.Broker.{IsBroker}
use kojin.MemoryBroker.Contract
use kojin.MemoryBroker.Contract.{memory_broker-IsBroker}
use kojin.MemoryBroker.Polling.{Dequeued, dequeue-Dequeued}
use kojin.MemoryBroker.Fifo.{enqueue_all, drain, drain-enqueue_all}
use kojin.MemoryBroker.Paging.{read_pages, read_pages-eq-dlq}
use kojin.MemoryResultBackend
use kojin.MemoryResultBackend.{MemoryResultBackend, memory_result_backend, wait, store}
use kojin.MemoryResultBackend.Contract.{view, memory_result_backend-IsResultBackend}
use kojin.MemoryResultBackend.Waiting.{Waited, wait-Waited}
use kojin.Middleware.Dedup
use kojin.Middleware.Dedup.{DeduplicationMiddleware, before}
use kojin.Middleware.Dedup.Once.{checked, cleaned, run, passes_once}
use kojin.Examples.Sample.{unary, unary-ShowsApart, message_of}

abbrev two_messages : List (TaskMessage ℕ)
two_messages = message_of "double" 1 ∷ message_of "double" 2 ∷ []

drain-enqueue_all_example :
    drain 2 "default" (enqueue_all two_messages MemoryBroker.new) ≡ two_messages
unfolding Message.new Map.get queue_at
drain-enqueue_all_example =
    drain-enqueue_all "default" two_messages MemoryBroker.new (refl, (refl, tt)) refl

memory_broker-IsBroker_example : IsBroker (memory_broker {J = ℕ}) Contract.view
memory_broker-IsBroker_example = memory_broker-IsBroker {J = ℕ}

abbrev late : MemoryBroker ℕ → MemoryBroker ℕ
late b = (enqueue (message_of "double" 1) b).1

dequeue-Dequeued_example :
    Dequeued
      ("other" ∷ "default" ∷ [])
      (late ∷ [])
      MemoryBroker.new
      (dequeue ("other" ∷ "default" ∷ []) (late ∷ []) MemoryBroker.new)
dequeue-Dequeued_example = dequeue-Dequeued ("other" ∷ "default" ∷ []) (late ∷ []) MemoryBroker.new

abbrev two_dead : MemoryBroker ℕ
two_dead =
    (dead_letter (message_of "double" 2) (dead_letter (message_of "double" 1) MemoryBroker.new).1).1

read_pages-eq-dlq_example : read_pages "default" 1 2 0 two_dead ≡ queue_at "default" two_dead.dlq
unfolding dlq_len dead_letter queue_at Message.new Map.get Map.insert
read_pages-eq-dlq_example = read_pages-eq-dlq "default" 1 2 2 two_dead refl (omega arith)

memory_result_backend-IsResultBackend_example :
    IsResultBackend (memory_result_backend {J = ℕ} unary) (view {J = ℕ} unary)
memory_result_backend-IsResultBackend_example =
    memory_result_backend-IsResultBackend {J = ℕ} unary unary-ShowsApart

abbrev stored_later : MemoryResultBackend ℕ → MemoryResultBackend ℕ
stored_later b = (store unary 4 40 b).1

wait-Waited_example :
    Waited unary 4 30
      (stored_later ∷ [])
      MemoryResultBackend.new
      (wait unary 4 30 (stored_later ∷ []) MemoryResultBackend.new)
wait-Waited_example = wait-Waited unary 4 30 (stored_later ∷ []) MemoryResultBackend.new

abbrev keyed : TaskMessage ℕ
keyed = Message.with_dedup_key (message_of "double" 1) "k"

passes_once_example :
    let s' =
      run
        (cleaned 12 ∷ checked 13 (message_of "double" 2) ∷ [])
        (before 10 keyed (Dedup.new 5)).1 in
    before 14 keyed s' ≡ (err (duplicate "k"), s')
unfolding Message.new Message.with_dedup_key before Map.get
passes_once_example =
    passes_once "k" 10 14 keyed keyed (cleaned 12 ∷ checked 13 (message_of "double" 2) ∷ [])
      (Dedup.new 5) tt refl refl refl ((omega arith, omega arith), ((omega arith, omega arith), tt))
      (omega arith, omega arith)

delay_for-eq-min_example : delay_for (exponential 1 300) 70 ≡ min (1 * 2 ^ 70) 300
delay_for-eq-min_example = delay_for-eq-min 1 300 70 (omega arith)
