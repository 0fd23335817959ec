-- ===== src/TaskState.antt =====
-- kojin-core/src/state.rs: the lifecycle states of a task.
use kojin.Prelude.{String, Bool, true, false}

pub data TaskState : Type 0 where
  pending received started success failure retry revoked dead_lettered : TaskState

is_terminal : TaskState → Bool
is_terminal success = true
is_terminal failure = true
is_terminal revoked = true
is_terminal dead_lettered = true
is_terminal _ = false

is_active : TaskState → Bool
is_active pending = true
is_active received = true
is_active started = true
is_active retry = true
is_active _ = false

-- `Display`, and the name that serde gives the state.
fmt : TaskState → String
fmt pending = "pending"
fmt received = "received"
fmt started = "started"
fmt success = "success"
fmt failure = "failure"
fmt retry = "retry"
fmt revoked = "revoked"
fmt dead_lettered = "dead_lettered"
