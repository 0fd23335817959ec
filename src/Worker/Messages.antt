-- ===== src/Worker/Messages.antt =====
-- kojin-core/src/worker.rs: the messages that an execution makes, for a retry, for the dead-letter queue,
-- as the callback of a chord and as the next step of a chain.
use kojin.Prelude.{◌+◌, String, Option, none, some, List, [], ◌∷◌, string_key}
use kojin.Prelude.Map
use kojin.Error.{TaskResult, ok, err}
use kojin.TaskState.{TaskState, retry, dead_lettered}
use kojin.Message.{DateTime, Stamp, TaskMessage}
use kojin.Signature.{Signature, into_message}
use kojin.Serde.{Serde}
use kojin.Worker.{chain_next, chain_input, group_results}

module _ {J : Type 0} where
  abbrev pub in_state : TaskState → TaskMessage J → TaskMessage J
  in_state state m = record m { fields = record m.fields { state = state } }

  -- The message that goes back to the queue, and the one that goes to the dead-letter queue.
  unfoldable pub retried : DateTime → TaskMessage J → TaskMessage J
  retried at m = record m {
    fields = record m.fields { retries = m.retries + 1; state = retry; updated_at = at };
  }

  unfoldable pub buried : DateTime → TaskMessage J → TaskMessage J
  buried at m = record m { fields = record m.fields { state = dead_lettered; updated_at = at } }

  -- The callback of a chord, with the results of the group in a header if they can be had.
  unfoldable pub with_results : TaskResult (List J) → Serde J → TaskMessage J → TaskMessage J
  with_results (err e) serde m = m
  with_results (ok results) serde m = elim (serde.values_to_string results) [
    | err e ↦ m
    | ok json ↦ record m {
      fields = record m.fields { headers = Map.insert group_results json m.headers };
    }
  ]

  abbrev pub set_header : String → String → TaskMessage J → TaskMessage J
  set_header key value m = record m {
    fields = record m.fields { headers = Map.insert key value m.headers };
  }

  -- Pass the current result as input to the next task.
  unfoldable pub pass_input : TaskResult String → TaskMessage J → TaskMessage J
  pass_input (err e) m = m
  pass_input (ok json) m = set_header chain_input json m

  -- Propagate correlation_id.
  unfoldable pub pass_correlation : Option String → TaskMessage J → TaskMessage J
  pass_correlation none m = m
  pass_correlation (some c) m = record m { fields = record m.fields { correlation_id = some c } }

  -- Store the remaining chain steps, less the first.
  unfoldable pub pass_rest : Serde J → List (Signature J) → TaskMessage J → TaskMessage J
  pass_rest serde [] m = m
  pass_rest serde (sig ∷ rest) m = elim (serde.signatures_to_string (sig ∷ rest)) [
    | err e ↦ m
    | ok json ↦ set_header chain_next json m
  ]

  -- The message of the next step of a chain.
  unfoldable pub next_message :
      Serde J → Stamp → TaskMessage J → J → Signature J → List (Signature J) → TaskMessage J
  unfolding pass_input pass_correlation pass_rest
  next_message serde stamp message result sig rest = pass_rest serde rest (
      pass_correlation message.correlation_id
        (pass_input (serde.value_to_string result) (into_message stamp sig)))
