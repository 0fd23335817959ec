-- ===== src/Registry.antt =====
-- kojin-core/src/registry.rs and task.rs: handlers by task name. `C` is the shared context; what
-- serde derives for a task and its output, and the body of `run`, are fields of the task.
use kojin.Prelude.{
  ℕ, ◌≡◌, String, Bool, true, false, Option, none, some, string_key, if◌then◌else◌, ◌==◌, arith,
}
use kojin.Prelude.Map
use kojin.Prelude.Map.{Map, get-insert}
use kojin.Error.{TaskResult, ok, err, task_not_found, ◌>>=◌}
use kojin.Signature
use kojin.Signature.{Signature}

pub record Task (J C T O : Type 0) : Type 0 where
  pub name : String
  pub queue : String
  pub max_retries : ℕ
  pub from_value : J → TaskResult T
  pub to_value : T → TaskResult J
  pub output_to_value : O → TaskResult J
  pub run : T → C → TaskResult O

abbrev pub TaskHandler : Type 0 → Type 0 → Type 0
TaskHandler J C = J → C → TaskResult J

pub record TaskRegistry (J C : Type 0) : Type 0 where
  pub handlers : Map String (TaskHandler J C)

module _ {J C : Type 0} where
  abbrev pub new : TaskRegistry J C
  new = record { handlers = Map.empty }

  -- The closure that `register` stores.
  abbrev pub handler_of : {T O : Type 0} → Task J C T O → TaskHandler J C
  handler_of t payload ctx = do
    task ← t.from_value payload
    result ← t.run task ctx
    t.output_to_value result

  unfoldable pub register : {T O : Type 0} → Task J C T O → TaskRegistry J C → TaskRegistry J C
  register t r = record r { handlers = Map.insert t.name (handler_of t) r.handlers }

  pub get : String → TaskRegistry J C → Option (TaskHandler J C)
  get name r = Map.get name r.handlers

  contains : String → TaskRegistry J C → Bool
  contains name r = elim (Map.get name r.handlers) [ none ↦ false | some h ↦ true ]

  unfoldable pub dispatch : TaskRegistry J C → String → J → C → TaskResult J
  unfolding get
  dispatch r name payload ctx = elim (get name r) [
    | none ↦ err (task_not_found name)
    | some handler ↦ handler payload ctx
  ]

  -- Task::signature; the error stands for the panic of `expect`.
  signature : {T O : Type 0} → Task J C T O → T → TaskResult (Signature J)
  signature t task = do
    payload ← t.to_value task
    ok (Signature.with_max_retries (Signature.new t.name t.queue payload) t.max_retries)

  -- After a task type is registered, its name runs its handler, the last one registered under that
  -- name; every other name is dispatched as before, and a name that nobody registered is not found.
  dispatch-register :
      {T O : Type 0} (t : Task J C T O) (r : TaskRegistry J C) (name : String) (payload : J)
      (ctx : C)
      → dispatch (register t r) name payload ctx
        ≡ (if t.name == name then handler_of t payload ctx else dispatch r name payload ctx)
  unfolding dispatch register
  dispatch-register t r name payload ctx =
      ground (arith, get-insert t.name name (handler_of t) r.handlers)
