-- ===== src/Postgres.antt =====
-- kojin-postgres/src/result_backend.rs: the result backend on PostgreSQL. `Tables` has its tables and its
-- SQL statements. Times are in seconds; the statements but those of `migrate` suppose that the tables
-- are there.
pub mod Tables
pub mod Groups
pub mod Race
use Prim.Native.String.{◌++◌ as ◌+++◌}
use kojin.Prelude.{
  is_some, ℕ, zero, suc, ◌+◌, ◌%◌, ◌^◌, String, Bool, true, false, Option, none, some, List, [],
  ◌∷◌, ltb, ◌&&◌, if◌then◌else◌, ◌==◌, string_key,
}
use kojin.Prelude.Map
use kojin.Prelude.Map.{Map}
use kojin.Prelude.Text.{to_decimal}
use kojin.Error.{KojinError, TaskResult, ok, err, result_backend, timeout}
use kojin.Message.{TaskId, DateTime}
use kojin.Broker.{Action}
use kojin.Action.{continue}
use kojin.ResultBackend.{ResultBackend}
use Tables.{
  ResultRow, GroupRow, Database, answer, execute, fetch, upsert_result, live, select_result,
  delete_result, has_key, insert_placeholder, upsert_member, counts, count_members, select_members,
  insert_sorted, order_by_task, results_of,
}

pub record PostgresResultBackend : Type 0 where
  pub ttl : ℕ

-- PostgresResultBackend::new, and `connect` for the answer of PgPool::connect
abbrev pub new : PostgresResultBackend
new = record { ttl = 86400 }

connect : Option String → TaskResult PostgresResultBackend
connect none = ok new
connect (some e) = err (result_backend e)

with_ttl : PostgresResultBackend → ℕ → PostgresResultBackend
with_ttl b ttl = record b { ttl = ttl }

module _ {J : Type 0} where
  -- CREATE TABLE IF NOT EXISTS, twice, and CREATE INDEX IF NOT EXISTS
  migrate : Action (Database J) Unit
  unfolding execute
  migrate db = continue (execute (λ d. record d { has_results = true }) db) λ u db1.
      continue (execute (λ d. record d { has_groups = true }) db1)
        λ v db2. execute (λ d. record d { has_index = true }) db2

module _ {J : Type 0} (before : String → String → Bool) (to_string : TaskId → String)
    (b : PostgresResultBackend) where
  pub store : TaskId → J → Action (Database J) Unit
  unfolding execute upsert_result
  store id value db = execute (upsert_result (to_string id) value (db.utc_now + b.ttl)) db

  pub get : TaskId → Action (Database J) (Option J)
  unfolding fetch select_result
  get id db = fetch (select_result (to_string id)) db

  poll_result : Option J → Action (Database J) J → Action (Database J) J
  poll_result (some value) later db = (ok value, db)
  poll_result none later db = later db

  -- The list of sleeps ends at the deadline.
  pub wait : TaskId → ℕ → List (Database J → Database J) → Action (Database J) J
  unfolding get poll_result
  wait id limit [] db =
      continue (get id db) λ found db1. poll_result found (λ db2. (err (timeout limit), db2)) db1
  wait id limit (act ∷ sleeps) db =
      continue (get id db)
        λ found db1. poll_result found (λ db2. wait id limit sleeps (act db2)) db1

  pub delete : TaskId → Action (Database J) Unit
  unfolding execute delete_result
  delete id db = execute (delete_result (to_string id)) db

  -- The loop for i in 0..total, where `left` turns are to come.
  pub init_from : String → ℕ → ℕ → Action (Database J) Unit
  unfolding execute insert_placeholder
  init_from group_id i zero db = (ok tt, db)
  init_from group_id i (suc left) db =
      let placeholder_id = group_id +++ ":placeholder:" +++ to_decimal i in
      continue
        (execute
          (λ d. record d {
            kojin_groups = insert_placeholder group_id placeholder_id d.kojin_groups;
          })
          db)
        λ u db1. init_from group_id (i + 1) left db1

  pub init_group : String → ℕ → Action (Database J) Unit
  unfolding init_from
  init_group group_id total = init_from group_id 0 total

  -- The two statements of `complete_group_member`. The count is cast to `u32`.
  pub complete_upsert : String → TaskId → J → Action (Database J) Unit
  unfolding execute upsert_member
  complete_upsert group_id id value =
      execute
        λ d. record d { kojin_groups = upsert_member group_id (to_string id) value d.kojin_groups }

  pub complete_count : String → Action (Database J) ℕ
  unfolding fetch count_members
  complete_count group_id = fetch λ d. count_members group_id d.kojin_groups % 2 ^ 32

  pub complete_group_member : String → TaskId → J → Action (Database J) ℕ
  unfolding complete_upsert complete_count
  complete_group_member group_id id value db =
      continue (complete_upsert group_id id value db) λ u db1. complete_count group_id db1

  pub get_group_results : String → Action (Database J) (List J)
  unfolding fetch select_members order_by_task results_of
  get_group_results group_id =
      fetch λ d. results_of before (order_by_task before (select_members group_id d.kojin_groups))

  abbrev pub postgres_result_backend : ResultBackend J (Database J)
  postgres_result_backend = record {
    store = store;
    get = get;
    wait = wait;
    delete = delete;
    init_group = init_group;
    complete_group_member = complete_group_member;
    get_group_results = get_group_results;
  }
