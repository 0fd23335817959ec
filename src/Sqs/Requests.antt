-- ===== src/Sqs/Requests.antt =====
-- The requests of kojin-sqs/src/broker.rs to the crate aws_sdk_sqs, with the fields that the code sets.
-- What the client and the server behind it do is a parameter of the model.
use kojin.Prelude.{ℕ, String, ◌≡◌, Option, some, List, [], ◌∷◌, ◌++◌, string_key}
use kojin.Message.{DateTime}
use kojin.Remote.{done, Call}

pub record SendMessage : Type 0 where
  pub queue_url : String
  pub message_body : String
  pub message_group_id : Option String
  pub message_deduplication_id : Option String
  pub delay_seconds : Option ℕ

pub record ReceiveMessage : Type 0 where
  pub queue_url : String
  pub max_number_of_messages : ℕ
  pub wait_time_seconds : ℕ
  pub visibility_timeout : ℕ

pub record SqsMessage : Type 0 where
  pub body : Option String
  pub receipt_handle : Option String

pub record Client (W : Type 0) : Type 0 where
  pub send_message : SendMessage → Call W (Unit {0})
  -- The list is absent where the server sends none.
  pub receive_message : ReceiveMessage → Call W (Option (List SqsMessage))
  pub delete_message : String → String → Call W (Unit {0})
  pub change_message_visibility : String → String → ℕ → Call W (Unit {0})
  -- The attribute ApproximateNumberOfMessages of the response, where it is there.
  pub get_queue_attributes : String → Call W (Option String)
  pub utc_now : W → DateTime

-- What can be seen of the server: the bodies that can be received from a queue, and those that are
-- in flight under a receipt handle.
pub record View (W : Type 0) : Type 0 where
  pub visible : W → String → List String
  pub in_flight : W → String → String → Option String

-- What SQS documents of a queue that holds one message: a receive hands it out under a receipt
-- handle, and it is in flight until its visibility is changed to zero, which makes it receivable
-- again as it was sent.
pub record Documented {W : Type 0} (client : Client W) (v : View W) : Type 0 where
  pub receive :
      (r : ReceiveMessage) (body : String) (w : W)
      → v.visible w r.queue_url ≡ body ∷ []
      → (handle : String) × (w' : W) × (client.receive_message r w
          ≡ (done (some (record { body = some body; receipt_handle = some handle } ∷ [])), w'))
        × (v.in_flight w' r.queue_url handle ≡ some body)
        × (v.visible w' r.queue_url ≡ [])
  pub make_visible :
      (url handle body : String) (w : W)
      → v.in_flight w url handle ≡ some body
      → (w' : W) × (client.change_message_visibility url handle 0 w ≡ (done tt, w'))
        × (v.visible w' url ≡ v.visible w url ++ body ∷ [])
