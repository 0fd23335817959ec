-- ===== src/Dashboard.antt =====
-- kojin-dashboard/src/routes.rs, state.rs and lib.rs: the handlers of the dashboard over a broker, a
-- result backend and the counters of the metrics middleware. The routing of axum is not code of the
-- repository; the two handlers that answer with a constant are left out.
pub mod Lookup
pub mod Inspection
use kojin.Prelude.{ℕ, String, Option, none, some, List, [], ◌∷◌}
use kojin.Error.{TaskResult, ok, err}
use kojin.Message.{TaskId, TaskMessage}
use kojin.Broker.{Broker}
use kojin.ResultBackend.{ResultBackend}
use kojin.Middleware.Metrics.{MetricsMiddleware}

-- The handlers share their parts with workers: `Shared` are the states behind the interfaces, and
-- `metrics` is a handle to counters in the state.
pub record DashboardState (J S R M : Type 0) : Type 0 where
  pub broker : Broker J S
  pub result_backend : Option (ResultBackend J R)
  pub metrics : Option (M → MetricsMiddleware)

pub record Shared (S R M : Type 0) : Type 0 where
  pub broker : S
  pub backend : R
  pub middleware : M

-- The status codes of axum that the handlers name.
pub data StatusCode : Type 0 where
  internal_server_error : StatusCode
  not_found : StatusCode
  bad_request : StatusCode

-- Result<impl IntoResponse, StatusCode>
pub data Response (A : Type 0) : Type 0 where
  json : A → Response A
  refused : StatusCode → Response A

pub record QueueInfo : Type 0 where
  pub name : String
  pub length : ℕ
  pub dlq_length : ℕ

pub record MetricsResponse : Type 0 where
  pub tasks_started : ℕ
  pub tasks_succeeded : ℕ
  pub tasks_failed : ℕ

pub record PaginationParams : Type 0 where
  pub offset : ℕ
  pub limit : ℕ

abbrev default_limit : ℕ
default_limit = 20

abbrev pub unwrap_or : {A : Type 0} → TaskResult A → A → A
unwrap_or (ok a) d = a
unwrap_or (err e) d = d

-- The serde defaults of the parameters that a query leaves out.
params_of : Option ℕ → Option ℕ → PaginationParams
params_of none none = record { offset = 0; limit = default_limit }
params_of none (some limit) = record { offset = 0; limit = limit }
params_of (some offset) none = record { offset = offset; limit = default_limit }
params_of (some offset) (some limit) = record { offset = offset; limit = limit }

module _ {J S R M : Type 0} where
  -- DashboardState::new, with_result_backend and with_metrics
  new : Broker J S → DashboardState J S R M
  new broker = record { broker = broker; result_backend = none; metrics = none }

  with_result_backend : DashboardState J S R M → ResultBackend J R → DashboardState J S R M
  with_result_backend d rb = record d { result_backend = some rb }

  with_metrics : DashboardState J S R M → (M → MetricsMiddleware) → DashboardState J S R M
  with_metrics d metrics = record d { metrics = some metrics }

module _ {J S R M : Type 0} (d : DashboardState J S R M) where
  -- The body of the loop over the names.
  queue_info : String → S → QueueInfo × S
  queue_info name s =
      let (length, s1) = d.broker.queue_len name s in
      let (dlq_length, s2) = d.broker.dlq_len name s1 in
      (record { name = name; length = unwrap_or length 0; dlq_length = unwrap_or dlq_length 0 }, s2)

  queue_infos : List String → S → List QueueInfo × S
  unfolding queue_info
  queue_infos [] s = ([], s)
  queue_infos (name ∷ names) s =
      let (info, s1) = queue_info name s in
      let (infos, s2) = queue_infos names s1 in (info ∷ infos, s2)

  listed : TaskResult (List String) → S → Response (List QueueInfo) × S
  unfolding queue_infos
  listed (err e) s = (refused internal_server_error, s)
  listed (ok queues) s = let (infos, s1) = queue_infos queues s in (json infos, s1)

  pub list_queues : Shared S R M → Response (List QueueInfo) × Shared S R M
  unfolding listed
  list_queues w =
      let (queues, s) = d.broker.list_queues w.broker in
      let (r, s1) = listed queues s in (r, record w { broker = s1 })

  detailed : String → TaskResult ℕ → S → Response QueueInfo × S
  detailed name (err e) s = (refused internal_server_error, s)
  detailed name (ok length) s =
      let (dlq_length, s1) = d.broker.dlq_len name s in
      (json (record { name = name; length = length; dlq_length = unwrap_or dlq_length 0 }), s1)

  pub get_queue : String → Shared S R M → Response QueueInfo × Shared S R M
  unfolding detailed
  get_queue name w =
      let (length, s) = d.broker.queue_len name w.broker in
      let (r, s1) = detailed name length s in (r, record w { broker = s1 })

  pub page : TaskResult (List (TaskMessage J)) → Response (List (TaskMessage J))
  page (err e) = refused internal_server_error
  page (ok messages) = json messages

  pub get_dlq :
      String → PaginationParams → Shared S R M → Response (List (TaskMessage J)) × Shared S R M
  unfolding page
  get_dlq name params w =
      let (messages, s) = d.broker.dlq_messages name params.offset params.limit w.broker in
      (page messages, record w { broker = s })

  counters : Option (M → MetricsMiddleware) → M → Response MetricsResponse
  counters none s = refused not_found
  counters (some metrics) s = json (record {
    tasks_started = (metrics s).tasks_started;
    tasks_succeeded = (metrics s).tasks_succeeded;
    tasks_failed = (metrics s).tasks_failed;
  })

  pub get_metrics : Shared S R M → Response MetricsResponse
  unfolding counters
  get_metrics w = counters d.metrics w.middleware

  pub found : TaskResult (Option J) → Response J
  found (ok (some value)) = json value
  found (ok none) = refused not_found
  found (err e) = refused internal_server_error

  pub lookup : ResultBackend J R → Option TaskId → R → Response J × R
  unfolding found
  lookup backend none r = (refused bad_request, r)
  lookup backend (some task_id) r = let (value, r') = backend.get task_id r in (found value, r')

  pub looked_up :
      Option (ResultBackend J R) → Option TaskId → Shared S R M → Response J × Shared S R M
  unfolding lookup
  looked_up none task_id w = (refused not_found, w)
  looked_up (some backend) task_id w =
      let (r, s) = lookup backend task_id w.backend in (r, record w { backend = s })

  -- `parse` reads a UUID.
  pub get_task_result : (String → Option TaskId) → String → Shared S R M → Response J × Shared S R M
  unfolding looked_up
  get_task_result parse id w = looked_up d.result_backend (parse id) w
