-- ===== src/Serde.antt =====
-- serde_json, as the core uses it: the texts that go through message headers. The functions belong
-- to that crate and are a parameter of the model.
use kojin.Prelude.{String, ◌≡◌, List}
use kojin.Error.{TaskResult, ok}
use kojin.Message.{TaskMessage}
use kojin.Signature.{Signature}

pub record Serde (J : Type 0) : Type 0 where
  -- serde_json::to_string of a `Vec<Signature>`, of a `Value` and of a `Vec<Value>`
  pub signatures_to_string : List (Signature J) → TaskResult String
  pub value_to_string : J → TaskResult String
  pub values_to_string : List J → TaskResult String
  -- serde_json::from_str::<Vec<Signature>>
  pub signatures_from_str : String → TaskResult (List (Signature J))

-- What is written is read back.
pub record RoundTrips {J : Type 0} (s : Serde J) : Type 0 where
  pub signatures :
      (sigs : List (Signature J))
      → (text : String) × (s.signatures_to_string sigs ≡ ok text)
        × (s.signatures_from_str text ≡ ok sigs)
  pub value : (a : J) → (text : String) × (s.value_to_string a ≡ ok text)
  pub values : (as_list : List J) → (text : String) × (s.values_to_string as_list ≡ ok text)

-- serde_json for whole messages, as the brokers use it: to_string or to_vec, and from_str or
-- from_slice. The error of `to_text` is KojinError::Serialization, by the operator `?`.
pub record MessageSerde (J : Type 0) : Type 0 where
  pub to_text : TaskMessage J → TaskResult String
  pub from_text : String → TaskResult (TaskMessage J)

-- What is written is read back.
abbrev pub Reads : {J : Type 0} → MessageSerde J → Type 0
Reads s =
    (m : TaskMessage _) → (text : String) × (s.to_text m ≡ ok text) × (s.from_text text ≡ ok m)
