-- ===== src/MemoryResultBackend.antt =====
-- kojin-core/src/memory_result_backend.rs: task results and group counters in memory. `to_string`
-- is the `Display` of a UUID, which is the key of a result. Each method takes its mutex once, so it
-- is one step. `completed` is a `u32`, which wraps around at its end as in a release build; a debug
-- build panics there.
pub mod Contract
pub mod Waiting
use Prim.Native.String.{◌++◌ as ◌+++◌}
use kojin.Prelude.{ℕ, ◌+◌, ◌%◌, ◌^◌, String, Option, none, some, List, [], ◌∷◌, ◌++◌, string_key}
use kojin.Prelude.Map
use kojin.Prelude.Map.{Map}
use kojin.Error.{KojinError, TaskResult, ok, err, result_backend, timeout}
use kojin.Message.{TaskId}
use kojin.Broker.{Action}
use kojin.ResultBackend.{ResultBackend}

pub record GroupState (J : Type 0) : Type 0 where
  pub total : ℕ
  pub completed : ℕ
  pub results : List J

pub record MemoryResultBackend (J : Type 0) : Type 0 where
  pub results : Map String J
  pub groups : Map String (GroupState J)

abbrev pub group_not_found : String → KojinError
group_not_found group_id = result_backend ("group not found: " +++ group_id)

module _ {J : Type 0} where
  abbrev pub new : MemoryResultBackend J
  new = record { results = Map.empty; groups = Map.empty }

module _ {J : Type 0} where
  -- What the loop of `wait` does with the answer of `get`.
  poll :
      TaskResult (Option J)
      → MemoryResultBackend J
      → TaskResult J × MemoryResultBackend J
      → TaskResult J × MemoryResultBackend J
  poll (err e) b later = (err e, b)
  poll (ok (some result)) b later = (ok result, b)
  poll (ok none) b later = later

module _ {J : Type 0} (to_string : TaskId → String) where
  pub store : TaskId → J → Action (MemoryResultBackend J) Unit
  store id result b = (ok tt, record b { results = Map.insert (to_string id) result b.results })

  pub get : TaskId → Action (MemoryResultBackend J) (Option J)
  get id b = (ok (Map.get (to_string id) b.results), b)

  pub delete : TaskId → Action (MemoryResultBackend J) Unit
  delete id b = (ok tt, record b { results = Map.remove (to_string id) b.results })

  -- The loop: `get`, then the deadline, then a sleep. The list of sleeps ends at the deadline.
  pub wait :
      TaskId
      → ℕ
      → List (MemoryResultBackend J → MemoryResultBackend J)
      → Action (MemoryResultBackend J) J
  unfolding get poll
  wait id limit [] b = let (r, b') = get id b in poll r b' (err (timeout limit), b')
  wait id limit (act ∷ sleeps) b =
      let (r, b') = get id b in let later = wait id limit sleeps (act b') in poll r b' later

module _ {J : Type 0} where
  unfoldable pub init_group : String → ℕ → Action (MemoryResultBackend J) Unit
  init_group group_id total b = (
    ok tt,
    record b {
      groups = Map.insert group_id (record { total = total; completed = 0; results = [] }) b.groups;
    },
  )

  -- state.completed += 1; state.results.push(result)
  abbrev bump : J → GroupState J → GroupState J
  bump result g = record g {
    completed = (g.completed + 1) % 2 ^ 32;
    results = g.results ++ result ∷ [];
  }

  unfoldable pub complete_group_member : String → TaskId → J → Action (MemoryResultBackend J) ℕ
  complete_group_member group_id id result b = elim (Map.get group_id b.groups) [
    | none ↦ (err (group_not_found group_id), b)
    | some g ↦ (
      ok ((g.completed + 1) % 2 ^ 32),
      record b { groups = Map.insert group_id (bump result g) b.groups },
    )
  ]

  unfoldable pub get_group_results : String → Action (MemoryResultBackend J) (List J)
  get_group_results group_id b = elim (Map.get group_id b.groups) [
    | none ↦ (err (group_not_found group_id), b)
    | some g ↦ (ok g.results, b)
  ]

abbrev pub memory_result_backend :
    {J : Type 0} → (TaskId → String) → ResultBackend J (MemoryResultBackend J)
memory_result_backend to_string = record {
  store = store to_string;
  get = get to_string;
  wait = wait to_string;
  delete = delete to_string;
  init_group = init_group;
  complete_group_member = complete_group_member;
  get_group_results = get_group_results;
}
