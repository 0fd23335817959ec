-- ===== src/Sqs/Limits/Refusals.antt =====
-- Messages for later on a FIFO queue of kojin-sqs/src/broker.rs, on a server that refuses what SQS
-- does not allow.
use kojin.Prelude.{◌≡◌, String, nat_key}
use kojin.Message
use kojin.Remote.{failed}
use kojin.Sqs.Requests.{Client, SendMessage}
use kojin.Sqs.Limits.{Valid}

-- A request that is not valid is refused, with a reason, and changes nothing.
abbrev pub Refuses : {W : Type 0} → Client W → Type 0
Refuses {W} client =
    (r : SendMessage) (w : W)
    → ¬ Valid r
    → (reason : String) × (client.send_message r w ≡ (failed reason, w))
