-- ===== src/Examples/Remotes.antt =====
-- A concrete SQS server with one queue, and a worker on it whose task fails. The server holds the
-- bodies that can be received, the one in flight, and the requests to send that it was given.
use kojin.Prelude.{ℕ, ◌≡◌, refl, String, Option, none, some, List, [], ◌∷◌, ◌++◌, All, arith}
use kojin.Prelude.Map
use kojin.Error.{ok, task_failed}
use kojin.Message
use kojin.Message.{TaskMessage}
use kojin.Broker.{Broker}
use kojin.Prelude.Text.{strip_suffix, last_segment}
use kojin.Remote.{Reply, done}
use kojin.Registry
use kojin.Serde.{MessageSerde}
use kojin.Middleware.Metrics
use kojin.Middleware.Metrics.{MetricsMiddleware, metrics_middleware}
use kojin.Worker.{default_config, Worker, World, Reading}
use kojin.Worker.Redelivery.{Endless, IsFailing, rounds}
use kojin.Sqs.Queues.{SqsConfig, resolve_queue_url, queue_name_from_url}
use kojin.Sqs.Requests.{Client, View, Documented, SendMessage, SqsMessage}
use kojin.Sqs.{SqsBroker, sqs_broker}
use kojin.Sqs.Redelivery.{Ready, never_given_up}
use kojin.Sqs.Limits.{Valid}
use kojin.Sqs.Limits.Calls.{Op, enqueues, dequeues, nacks, dead_letters, schedules}
use kojin.Examples.Codec.{number_serde}
use kojin.Examples.Sample.{unary, sample_registry, message_of}

pub record Server : Type 0 where
  pub waiting : List String
  pub flight : Option String
  pub log : List SendMessage

abbrev hand_out : List String → Server → Reply (Option (List SqsMessage)) × Server
hand_out [] w = (done none, w)
hand_out (body ∷ rest) w = (
  done (some (record { body = some body; receipt_handle = some "r" } ∷ [])),
  record w { waiting = rest; flight = some body },
)

abbrev put_back : Option String → Server → Server
put_back none w = w
put_back (some body) w = record w { waiting = w.waiting ++ body ∷ []; flight = none }

abbrev server_client : Client Server
server_client = record {
  send_message = λ r w.
      (done tt, record w { waiting = w.waiting ++ r.message_body ∷ []; log = w.log ++ r ∷ [] });
  receive_message = λ r w. hand_out w.waiting w;
  delete_message = λ url handle w. (done tt, record w { flight = none });
  change_message_visibility = λ url handle n w. (done tt, put_back w.flight w);
  get_queue_attributes = λ url w. (done (some "1"), w);
  utc_now = λ w. 10;
}

abbrev server_view : View Server
server_view = record { visible = λ w url. w.waiting; in_flight = λ w url handle. w.flight }

server-Documented : Documented server_client server_view
server-Documented = record {
  receive =
      λ r body w h. ("r", record w { waiting = []; flight = some body }, rw h refl, refl, refl);
  make_visible = λ url handle body w h.
      (record w { waiting = w.waiting ++ body ∷ []; flight = none }, rw h refl, refl);
}

abbrev pub broken : TaskMessage ℕ
broken = message_of "broken" 5

abbrev pub message_serde : MessageSerde ℕ
message_serde = record { to_text = λ m. ok "m"; from_text = λ text. ok broken }

abbrev url : String
url = "https://sqs/default.fifo"

abbrev config : SqsConfig
config = record {
  queue_urls = url ∷ [];
  dlq_url = none;
  visibility_timeout = 30;
  wait_time_seconds = 20;
}

abbrev on_server : Broker ℕ (SqsBroker Server)
on_server = sqs_broker server_client message_serde unary config 5

abbrev pub worker_on : {S : Type 0} → Broker ℕ S → Worker ℕ Unit S Unit MetricsMiddleware
worker_on broker = record {
  broker = broker;
  registry = sample_registry;
  middlewares = metrics_middleware ∷ [];
  context = tt;
  config = default_config;
  result_backend = none;
  serde = number_serde;
}

abbrev pub world_on : {S : Type 0} → S → World S Unit MetricsMiddleware
world_on s = record { broker = s; backend = tt; middleware = Metrics.new; slept = [] }

abbrev pub reading : {S : Type 0} → Reading S
reading = record {
  now = 10;
  failed_at = 11;
  stamp = record { id = 1; now = 10 };
  meanwhile = λ s. s;
}

abbrev sqs_state : SqsBroker Server
sqs_state = record {
  server = record { waiting = "m" ∷ []; flight = none; log = [] };
  receipts = Map.empty;
}

pub broken-IsFailing :
    {S : Type 0} (b : Broker ℕ S) (wakes : List (S → S))
    → IsFailing (worker_on b) "default" wakes broken (task_failed "broken") (reading ∷ reading ∷ [])
unfolding Registry.dispatch Registry.register Message.new Map.get Map.insert
broken-IsFailing b wakes = record {
  fails = refl;
  retries_left = omega arith;
  due = (tt, (tt, tt));
  quiet = (λ s. refl, (λ s. refl, tt));
}

default_resolves : resolve_queue_url config "default" ≡ some url
unfolding resolve_queue_url queue_name_from_url strip_suffix last_segment Map.insert Map.remove
default_resolves = refl

never_given_up_example :
    Endless
      (worker_on on_server)
      "default"
      []
      broken
      (Ready server_client server_view message_serde unary config url broken "m")
      2
      (world_on sqs_state)
      (rounds (worker_on on_server) "default" [] (reading ∷ reading ∷ []) (world_on sqs_state)).0
      (rounds (worker_on on_server) "default" [] (reading ∷ reading ∷ []) (world_on sqs_state)).1
never_given_up_example =
    never_given_up server_client server_view message_serde unary config url broken "m"
      server-Documented refl "default" default_resolves 5 (worker_on on_server) refl
      (task_failed "broken") (reading ∷ reading ∷ []) (world_on sqs_state)
      (broken-IsFailing on_server []) refl

abbrev AllValid : Server → Type 0
AllValid w = All Valid w.log

-- A standard queue and a FIFO queue.
abbrev both_queues : SqsConfig
both_queues = record config { queue_urls = "https://sqs/default" ∷ "https://sqs/ordered.fifo" ∷ [] }

abbrev ordered : TaskMessage ℕ
ordered = record broken { fields = record broken.fields { queue = "ordered" } }

abbrev calls : List (Op server_client message_serde unary both_queues 5)
calls =
    enqueues ordered
    ∷ dequeues ("default" ∷ "ordered" ∷ [])
    ∷ nacks broken
    ∷ schedules broken 4000
    ∷ dead_letters broken
    ∷ []
