-- ===== src/Message.antt =====
-- kojin-core/src/message.rs and task_id.rs: the task message that flows through a broker. The
-- payload is a `serde_json::Value`, the type parameter `J`. A `TaskId` is the number that its UUID
-- stands for, a `DateTime<Utc>` a number of seconds; `u32` and `u8` fields are numbers.
pub mod Hash
use kojin.Prelude.{ℕ, String, ◌≡◌, Option, none, some, min, arith, string_key}
use kojin.Prelude.Map
use kojin.Prelude.Map.{Map}
use kojin.TaskState.{TaskState, pending}
use Prim.Native.String.{◌++◌}
use Hash.{fnv1a_64, as_bytes, to_hex}

abbrev pub TaskId : Type 0
TaskId = ℕ

abbrev pub DateTime : Type 0
DateTime = ℕ

-- What `TaskId::new()` and `Utc::now()` return to one call of `TaskMessage::new`.
pub record Stamp : Type 0 where
  pub id : TaskId
  pub now : DateTime

-- The fields of a message, less the boxed `chord_callback`.
pub record Fields (J : Type 0) : Type 0 where
  pub id : TaskId
  pub task_name : String
  pub queue : String
  pub payload : J
  pub state : TaskState
  pub retries : ℕ
  pub max_retries : ℕ
  pub created_at : DateTime
  pub updated_at : DateTime
  pub eta : Option DateTime
  pub headers : Map String String
  pub parent_id : Option TaskId
  pub correlation_id : Option String
  pub group_id : Option String
  pub group_total : Option ℕ
  pub priority : Option ℕ
  pub dedup_key : Option String

-- `Box<TaskMessage>`: the fields, and the box of the message's own callback, if it has one.
pub data Boxed (J : Type 0) : Type 0 where
  plain : Fields J → Boxed J
  chained : Fields J → Boxed J → Boxed J

pub record TaskMessage (J : Type 0) : Type 0 where
  pub fields : Fields J
  pub open fields use *
  pub chord_callback : Option (Boxed J)

module _ {J : Type 0} where
  box_fields : Fields J → Option (Boxed J) → Boxed J
  box_fields f none = plain f
  box_fields f (some b) = chained f b

  -- Box::new(message)
  unfoldable pub box : TaskMessage J → Boxed J
  unfolding box_fields
  box m = box_fields m.fields m.chord_callback

  -- *boxed
  unfoldable pub unbox : Boxed J → TaskMessage J
  unbox (plain f) = record { fields = f; chord_callback = none }
  unbox (chained f b) = record { fields = f; chord_callback = some b }

  unfoldable pub new : Stamp → String → String → J → TaskMessage J
  new stamp task_name queue payload = record {
    fields = record {
      id = stamp.id;
      task_name = task_name;
      queue = queue;
      payload = payload;
      state = pending;
      retries = 0;
      max_retries = 3;
      created_at = stamp.now;
      updated_at = stamp.now;
      eta = none;
      headers = Map.empty;
      parent_id = none;
      correlation_id = none;
      group_id = none;
      group_total = none;
      priority = none;
      dedup_key = none;
    };
    chord_callback = none;
  }

  unfoldable pub with_max_retries : TaskMessage J → ℕ → TaskMessage J
  with_max_retries m n = record m { fields = record m.fields { max_retries = n } }

  unfoldable pub with_eta : TaskMessage J → DateTime → TaskMessage J
  with_eta m eta = record m { fields = record m.fields { eta = some eta } }

  unfoldable pub with_header : TaskMessage J → String → String → TaskMessage J
  with_header m k v = record m { fields = record m.fields { headers = Map.insert k v m.headers } }

  unfoldable pub with_parent_id : TaskMessage J → TaskId → TaskMessage J
  with_parent_id m id = record m { fields = record m.fields { parent_id = some id } }

  unfoldable pub with_correlation_id : TaskMessage J → String → TaskMessage J
  with_correlation_id m c = record m { fields = record m.fields { correlation_id = some c } }

  unfoldable pub with_group : TaskMessage J → String → ℕ → TaskMessage J
  with_group m group_id group_total = record m {
    fields = record m.fields { group_id = some group_id; group_total = some group_total };
  }

  unfoldable pub with_chord_callback : TaskMessage J → TaskMessage J → TaskMessage J
  unfolding box
  with_chord_callback m callback = record m { chord_callback = some (box callback) }

  -- priority.min(9)
  unfoldable pub with_priority : TaskMessage J → ℕ → TaskMessage J
  with_priority m p = record m { fields = record m.fields { priority = some (min p 9) } }

  unfoldable pub with_dedup_key : TaskMessage J → String → TaskMessage J
  with_dedup_key m key = record m { fields = record m.fields { dedup_key = some key } }

  -- `to_text` is the `Display` of `serde_json::Value`.
  unfoldable pub with_content_dedup : (J → String) → TaskMessage J → TaskMessage J
  with_content_dedup to_text m =
      let input = m.task_name ++ ":" ++ to_text m.payload in
      record m {
        fields = record m.fields {
          dedup_key = some ("content:" ++ to_hex (fnv1a_64 (as_bytes input)));
        };
      }
