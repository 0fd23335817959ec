-- ===== src/Redis/ResultBackend.antt =====
-- kojin-redis/src/result_backend.rs: the result backend on Redis. `redis` and `json` are the crates that
-- it calls, the text of a task id is `to_string`. The time to live is in seconds.
pub mod Groups
use kojin.Prelude.{ℕ, String, Option, none, some, List, [], ◌∷◌}
use kojin.Prelude.Int.{pos, negsuc}
use kojin.Prelude.Text.{to_decimal}
use kojin.Error.{TaskResult, ok, err, result_backend, timeout, ◌>>=◌}
use kojin.Message.{TaskId}
use kojin.Broker.{Action}
use kojin.Remote.{Reply, done, failed, Call}
use kojin.Action.{continue, lift}
use kojin.ResultBackend.{ResultBackend}
use kojin.Redis.Config.{RedisConfig}
use kojin.Redis.Commands.{Commands}
use kojin.Redis.Keys
use kojin.Redis.Keys.{KeyBuilder, result, group_total, group_completed, group_results}

-- serde_json for one `Value`.
pub record Json (J : Type 0) : Type 0 where
  pub to_text : J → TaskResult String
  pub from_text : String → TaskResult J

pub record RedisResultBackend : Type 0 where
  pub keys : KeyBuilder
  pub ttl : ℕ

with_ttl : RedisResultBackend → ℕ → RedisResultBackend
with_ttl b ttl = record b { ttl = ttl }

-- .map_err(backend_err)
abbrev pub backend_err : {A : Type 0} → Reply A → TaskResult A
backend_err (done a) = ok a
backend_err (failed e) = err (result_backend e)

abbrev pub answered : {A W : Type 0} → Call W A → Action W A
answered call w = let (r, w') = call w in (backend_err r, w')

module _ {W : Type 0} (redis : Commands W) where
  -- RedisResultBackend::new
  new : RedisConfig → Action W RedisResultBackend
  new config w = continue (answered (redis.build_pool config.url config.pool_size) w) λ u w1.
      continue (answered redis.pool_get w1)
        λ conn w2. (ok (record { keys = Keys.new config.key_prefix; ttl = 86400 }), w2)

  -- GROUP_COMPLETE_SCRIPT
  pub group_complete_script : String → String → String → W → ℕ × W
  group_complete_script completed_key results_key result w =
      let (count, w1) = redis.script_incr completed_key w in
      (count, redis.script_rpush results_key result w1)

module _ {J W : Type 0} (redis : Commands W) (json : Json J) (to_string : TaskId → String)
    (b : RedisResultBackend) where
  abbrev conn : Action W Unit
  conn w = answered redis.pool_get w

  pub store : TaskId → J → Action W Unit
  store id value w = continue (conn w) λ c w1.
      continue (lift (json.to_text value) w1)
        λ serialized w2. answered (redis.set_ex (result b.keys (to_string id)) serialized b.ttl) w2

  -- The text of a stored result, read.
  pub decoded : Option String → TaskResult (Option J)
  decoded none = ok none
  decoded (some s) = do value ← json.from_text s; ok (some value)

  pub get : TaskId → Action W (Option J)
  unfolding decoded
  get id w = continue (conn w) λ c w1.
      continue (answered (redis.get (result b.keys (to_string id))) w1)
        λ text w2. lift (decoded text) w2

  -- What the loop of `wait` does with the answer of `get`.
  poll_result : Option J → Action W J → Action W J
  poll_result (some value) later w = (ok value, w)
  poll_result none later w = later w

  -- The list of sleeps ends at the deadline.
  pub wait : TaskId → ℕ → List (W → W) → Action W J
  unfolding get poll_result
  wait id limit [] w =
      continue (get id w) λ found w1. poll_result found (λ w2. (err (timeout limit), w2)) w1
  wait id limit (act ∷ sleeps) w =
      continue (get id w) λ found w1. poll_result found (λ w2. wait id limit sleeps (act w2)) w1

  pub delete : TaskId → Action W Unit
  delete id w = continue (conn w) λ c w1. answered (redis.del (result b.keys (to_string id))) w1

  -- The count of completed members is not touched.
  pub init_group : String → ℕ → Action W Unit
  init_group group_id total w =
      continue (conn w)
        λ c w1. answered (redis.set_ex (group_total b.keys group_id) (to_decimal total) b.ttl) w1

  pub complete_group_member : String → TaskId → J → Action W ℕ
  unfolding group_complete_script
  complete_group_member group_id id value w = continue (conn w) λ c w1.
      continue (lift (json.to_text value) w1) λ serialized w2.
        answered
          (redis.invoke (
            group_complete_script redis (group_completed b.keys group_id)
              (group_results b.keys group_id) serialized))
          w2

  -- collect() of results: the first error, or all values.
  read_values : List String → TaskResult (List J)
  read_values [] = ok []
  read_values (item ∷ items) = do
    value ← json.from_text item
    values ← read_values items
    ok (value ∷ values)

  pub get_group_results : String → Action W (List J)
  unfolding read_values
  get_group_results group_id w = continue (conn w) λ c w1.
      continue (answered (redis.lrange (group_results b.keys group_id) (pos 0) (negsuc 0)) w1)
        λ items w2. lift (read_values items) w2

  abbrev pub redis_result_backend : ResultBackend J W
  redis_result_backend = record {
    store = store;
    get = get;
    wait = wait;
    delete = delete;
    init_group = init_group;
    complete_group_member = complete_group_member;
    get_group_results = get_group_results;
  }
