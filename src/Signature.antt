-- ===== src/Signature.antt =====
-- kojin-core/src/signature.rs: a task invocation that is described and not yet enqueued.
use kojin.Prelude.{ℕ, String, ◌≡◌, refl, Option, none, some, min, string_key}
use kojin.Prelude.Map
use kojin.Prelude.Map.{Map}
use kojin.Message
use kojin.Message.{DateTime, Stamp, TaskMessage}

pub record Signature (J : Type 0) : Type 0 where
  pub task_name : String
  pub queue : String
  pub payload : J
  pub max_retries : ℕ
  pub eta : Option DateTime
  pub headers : Map String String
  pub priority : Option ℕ
  pub dedup_key : Option String

module _ {J : Type 0} where
  unfoldable pub new : String → String → J → Signature J
  new task_name queue payload = record {
    task_name = task_name;
    queue = queue;
    payload = payload;
    max_retries = 3;
    eta = none;
    headers = Map.empty;
    priority = none;
    dedup_key = none;
  }

  unfoldable pub with_max_retries : Signature J → ℕ → Signature J
  with_max_retries s n = record s { max_retries = n }

  unfoldable pub with_eta : Signature J → DateTime → Signature J
  with_eta s eta = record s { eta = some eta }

  unfoldable pub with_header : Signature J → String → String → Signature J
  with_header s k v = record s { headers = Map.insert k v s.headers }

  unfoldable pub with_priority : Signature J → ℕ → Signature J
  with_priority s p = record s { priority = some (min p 9) }

  unfoldable pub with_dedup_key : Signature J → String → Signature J
  with_dedup_key s key = record s { dedup_key = some key }

  unfoldable pub into_message : Stamp → Signature J → TaskMessage J
  unfolding Message.new Message.with_max_retries
  into_message stamp s =
      let msg =
        Message.with_max_retries (Message.new stamp s.task_name s.queue s.payload) s.max_retries in
      record msg {
        fields = record msg.fields {
          eta = s.eta;
          headers = s.headers;
          priority = s.priority;
          dedup_key = s.dedup_key;
        };
      }

  -- The signature that a message was made from.
  unfoldable pub of_message : TaskMessage J → Signature J
  of_message m = record {
    task_name = m.task_name;
    queue = m.queue;
    payload = m.payload;
    max_retries = m.max_retries;
    eta = m.eta;
    headers = m.headers;
    priority = m.priority;
    dedup_key = m.dedup_key;
  }

  -- Nothing of a signature is lost in the message that it becomes, whatever the stamp.
  of_message-into_message :
      (stamp : Stamp) (s : Signature J) → of_message (into_message stamp s) ≡ s
  unfolding of_message into_message
  of_message-into_message stamp s = refl
