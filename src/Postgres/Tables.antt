-- ===== src/Postgres/Tables.antt =====
-- The two tables of kojin-postgres/src/result_backend.rs, less the column created_at, which nothing reads,
-- and its SQL statements as functions on them. `faults` are the next answers of the database, and a
-- statement that fails changes nothing. The order of texts is that of the database, `before`; a JSONB
-- value is a value of `J`. Times are in seconds.
use kojin.Prelude.{
  is_some, ℕ, ◌+◌, String, Bool, true, false, Option, none, some, List, [], ◌∷◌, ltb, ◌&&◌,
  if◌then◌else◌, ◌==◌, string_key,
}
use kojin.Prelude.Map
use kojin.Prelude.Map.{Map}
use kojin.Error.{TaskResult, ok, err, result_backend}
use kojin.Message.{DateTime}
use kojin.Broker.{Action}

-- A row of `kojin_results`, by its task id, and one of `kojin_groups`.
pub record ResultRow (J : Type 0) : Type 0 where
  pub result : J
  pub expires_at : Option DateTime

pub record GroupRow (J : Type 0) : Type 0 where
  pub group_id : String
  pub task_id : String
  pub result : Option J
  pub completed : Bool

-- The database with the clock of its server, the clock of the program, and its next answers: an error
-- text, or no error; where the list ends there are no errors any more. The statements but those of
-- `migrate` suppose that the tables are there.
pub record Database (J : Type 0) : Type 0 where
  pub kojin_results : Map String (ResultRow J)
  pub kojin_groups : List (GroupRow J)
  pub has_results : Bool
  pub has_groups : Bool
  pub has_index : Bool
  pub now : DateTime
  pub utc_now : DateTime
  pub faults : List (Option String)

module _ {J : Type 0} where
  -- A statement: `execute` changes the tables, `fetch` reads them.
  unfoldable pub answer :
      {A : Type 0} → List (Option String) → A → Database J → Database J → TaskResult A × Database J
  answer [] a db db' = (ok a, db')
  answer (none ∷ faults) a db db' = (ok a, record db' { faults = faults })
  answer (some e ∷ faults) a db db' = (err (result_backend e), record db { faults = faults })

  unfoldable pub execute : (Database J → Database J) → Action (Database J) Unit
  unfolding answer
  execute statement db = answer db.faults tt db (statement db)

  unfoldable pub fetch : {A : Type 0} → (Database J → A) → Action (Database J) A
  unfolding answer
  fetch query db = answer db.faults (query db) db db

  -- INSERT INTO kojin_results ... ON CONFLICT (task_id) DO UPDATE
  unfoldable pub upsert_result : String → J → DateTime → Database J → Database J
  upsert_result task_id result expires_at db = record db {
    kojin_results =
        Map.insert task_id (record { result = result; expires_at = some expires_at })
          db.kojin_results;
  }

  -- WHERE expires_at IS NULL OR expires_at > NOW()
  unfoldable pub live : DateTime → Option (ResultRow J) → Option J
  live now none = none
  live now (some row) = elim row.expires_at [
    | none ↦ some row.result
    | some expires_at ↦ if ltb now expires_at then some row.result else none
  ]

  unfoldable pub select_result : String → Database J → Option J
  unfolding live
  select_result task_id db = live db.now (Map.get task_id db.kojin_results)

  unfoldable pub delete_result : String → Database J → Database J
  delete_result task_id db = record db { kojin_results = Map.remove task_id db.kojin_results }

  -- The primary key (group_id, task_id).
  abbrev pub has_key : String → String → GroupRow J → Bool
  has_key group_id task_id row = row.group_id == group_id && row.task_id == task_id

  -- INSERT INTO kojin_groups (group_id, task_id, completed) ... ON CONFLICT DO NOTHING
  unfoldable pub insert_placeholder : String → String → List (GroupRow J) → List (GroupRow J)
  insert_placeholder group_id task_id [] =
      record { group_id = group_id; task_id = task_id; result = none; completed = false } ∷ []
  insert_placeholder group_id task_id (row ∷ rows) =
      let rest = row ∷ insert_placeholder group_id task_id rows in
      if has_key group_id task_id row then row ∷ rows else rest

  -- INSERT INTO kojin_groups ... ON CONFLICT DO UPDATE SET result, completed = TRUE
  unfoldable pub upsert_member : String → String → J → List (GroupRow J) → List (GroupRow J)
  upsert_member group_id task_id value [] =
      record { group_id = group_id; task_id = task_id; result = some value; completed = true } ∷ []
  upsert_member group_id task_id value (row ∷ rows) =
      let rest = row ∷ upsert_member group_id task_id value rows in
      if has_key group_id task_id row
      then record row { result = some value; completed = true } ∷ rows
      else rest

  -- WHERE group_id = $1 AND completed = TRUE AND result IS NOT NULL
  unfoldable pub counts : String → GroupRow J → Bool
  counts group_id row = row.group_id == group_id && (row.completed && is_some row.result)

  -- SELECT COUNT(*)
  unfoldable pub count_members : String → List (GroupRow J) → ℕ
  unfolding counts
  count_members group_id [] = 0
  count_members group_id (row ∷ rows) =
      (if counts group_id row then 1 else 0) + count_members group_id rows

  -- SELECT result, with the task ids that they are ordered by.
  unfoldable pub select_members : String → List (GroupRow J) → List (String × J)
  select_members group_id [] = []
  select_members group_id (row ∷ rows) =
      let rest = select_members group_id rows in
      if row.group_id == group_id && row.completed
      then elim row.result [ none ↦ rest | some a ↦ (row.task_id, a) ∷ rest ]
      else rest

module _ {J : Type 0} (before : String → String → Bool) where
  unfoldable pub insert_sorted : String × J → List (String × J) → List (String × J)
  insert_sorted x [] = x ∷ []
  insert_sorted x (y ∷ ys) =
      let rest = y ∷ insert_sorted x ys in if before y.0 x.0 then rest else x ∷ y ∷ ys

  -- ORDER BY task_id
  unfoldable pub order_by_task : List (String × J) → List (String × J)
  unfolding insert_sorted
  order_by_task [] = []
  order_by_task (x ∷ xs) = insert_sorted x (order_by_task xs)

  unfoldable pub results_of : List (String × J) → List J
  results_of [] = []
  results_of ((task_id, a) ∷ rows) = a ∷ results_of rows
