-- ===== src/Lib.antt =====
-- The task queue kojin: its core (kojin-core/src), the brokers and result backends on servers
-- (kojin-redis, kojin-amqp, kojin-sqs, kojin-postgres), the agents (kojin-agent) and the builder (kojin).
--
-- A client makes a `Signature` (Signature.antt, signature.rs) into a `TaskMessage` (Message.antt,
-- message.rs) and enqueues it on a broker. `Broker` (Broker.antt, broker.rs) is the record of the
-- operations of the trait over a state type, with the contract `IsBroker` that its clients rely on;
-- MemoryBroker (memory_broker.rs) is the implementation in memory. `ResultBackend`
-- (ResultBackend.antt, result_backend.rs) with `IsResultBackend` and MemoryResultBackend
-- (memory_result_backend.rs) stand to each other in the same way. Registry (registry.rs, task.rs)
-- finds the handler of a task by name, Middleware (middleware/mod.rs, metrics.rs, dedup.rs,
-- rate_limit.rs) has the hooks around an execution, Backoff (backoff.rs) the delays between retries, QueueWeight
-- (queue_weight.rs) the polling order of queues. Worker (worker.rs) puts these together: in Execution,
-- `execute_task` is one execution of a dequeued message, from the ETA guard to the acknowledgement, the
-- stored result, the chord callback and the next step of a chain, or to the retry and the dead-letter
-- queue; Worker/Loop.antt is the loop `Worker::run` with its permits and its shutdown. Canvas
-- (canvas.rs) submits workflows of signatures, chains, groups and chords, whose further steps the
-- worker then enqueues. Cron (cron.rs) enqueues signatures by a schedule. Builder
-- (kojin/src/builder.rs) puts a worker together. Error and TaskState are error.rs and state.rs.
--
-- The brokers on servers implement the same record `Broker`. Redis (kojin-redis/src) has the names of the
-- keys (Keys, keys.rs), the configuration, the broker (Broker, broker.rs and scripts.rs) and the
-- result backend (ResultBackend, result_backend.rs). Amqp (kojin-amqp/src/broker.rs, topology.rs,
-- config.rs) has the topology of exchanges and queues, the background consumers, which fill a buffer,
-- and the operations. Sqs (kojin-sqs/src/broker.rs, config.rs) has the names of queues by their urls,
-- the requests and the operations. Postgres (kojin-postgres/src/result_backend.rs) is the result
-- backend on two tables. Agent (kojin-agent/src) runs a coding agent as a child process
-- (Runner.antt, runner.rs and helpers.rs), as a task (Tasks.antt, task.rs and concurrency.rs), and in
-- a loop that generates, tests and repairs (Sdd.antt, sdd.rs). Dashboard (kojin-dashboard/src/routes.rs,
-- state.rs) reads what a worker leaves behind. Context (kojin-core/src/context.rs) has the values that
-- handlers share, one for each type. Serving, Worker.Redelivery and Examples
-- are not code of the repository: a worker that serves one queue alone, a queue that delivers a
-- message again, and concrete inputs.
--
-- State is passed explicitly. A method that takes a lock for all of its body is one step; where a
-- method waits, what other tasks do in the meantime is an argument, one change of state for each
-- wake-up, so the theorems hold for every interleaving at these points. What the code reads from
-- outside (the clock, new ids) is an argument too: `Stamp` and `Reading`. `TaskResult` is the sum of a
-- value and an error, and what was done before an error stays done.
--
-- What a server, a client library or the operating system does is a record of calls on a state type
-- that is left open (`Commands` of Redis, the calls of lapin, the requests of the SQS client, the
-- spawning of a process), and each call can fail (Remote.antt). A theorem that needs more names what
-- is documented of those calls as a record of hypotheses, and an example fills it with a concrete
-- server. The statements of SQL stand in the source and are functions on the tables. Remote.antt and
-- Action.antt have the plumbing: a call, its error, and the operator `?` on actions.
--
-- Numbers are natural numbers; where the source saturates, wraps or casts, the word size is written
-- out (Backoff, Message.Hash, Middleware.Metrics, MemoryResultBackend, Prelude.Int). Payloads and results are a type
-- parameter for serde_json::Value, and so is f64; the functions of serde_json are the records `Serde`
-- and `MessageSerde`, of which the theorems ask that what is written is read back. Loops run over
-- lists or count down, so no fuel is needed: the list of wake-ups ends where the timeout comes.
--
-- Not modelled: log calls, the serde attributes, the middlewares that only report (tracing,
-- OpenTelemetry), the codec, the HTTP routing and the web page of the dashboard, and the macros.
pub mod Prelude
pub mod Error
pub mod TaskState
pub mod Message
pub mod Signature
pub mod Action
pub mod Backoff
pub mod QueueWeight
pub mod Broker
pub mod MemoryBroker
pub mod ResultBackend
pub mod MemoryResultBackend
pub mod Middleware
pub mod Serde
pub mod Canvas
pub mod Cron
pub mod Dashboard
pub mod Registry
pub mod Context
pub mod Worker
pub mod Remote
pub mod Agent
pub mod Postgres
pub mod Amqp
pub mod Sqs
pub mod Builder
pub mod Redis
pub mod Examples
