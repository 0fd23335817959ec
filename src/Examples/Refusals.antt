-- ===== src/Examples/Refusals.antt =====
-- An SQS server that checks each request to send, and a FIFO queue on it.
use kojin.Prelude.{
  ℕ, Bool, true, false, String, Option, none, some, List, [], ◌∷◌, ◌++◌, leb, if◌then◌else◌,
}
use kojin.Prelude.Map
use kojin.Message
use kojin.Remote.{done, failed}
use kojin.Sqs.Queues.{SqsConfig, is_fifo}
use kojin.Sqs.Requests.{Client, SendMessage}
use kojin.Sqs.{SqsBroker}

-- What the server accepts: on a FIFO queue no delay, a group and a deduplication id; on a standard
-- queue a delay up to the limit, and neither of the others.
abbrev fits_fifo : Option ℕ → Option String → Option String → Bool
fits_fifo (some n) g d = false
fits_fifo none none d = false
fits_fifo none (some g) none = false
fits_fifo none (some g) (some d) = true

abbrev in_time : Option ℕ → Bool
in_time none = true
in_time (some n) = leb n 900

abbrev fits_standard : Option ℕ → Option String → Option String → Bool
fits_standard delay (some g) d = false
fits_standard delay none (some d) = false
fits_standard delay none none = in_time delay

abbrev accepts : SendMessage → Bool
accepts r =
    if is_fifo r.queue_url
    then fits_fifo r.delay_seconds r.message_group_id r.message_deduplication_id
    else fits_standard r.delay_seconds r.message_group_id r.message_deduplication_id

-- The server keeps the bodies that it has accepted.
abbrev strict_client : Client (List String)
strict_client = record {
  send_message = λ r w.
      if accepts r
      then (done tt, w ++ r.message_body ∷ [])
      else (failed "InvalidParameterValue", w);
  receive_message = λ r w. (done none, w);
  delete_message = λ url handle w. (done tt, w);
  change_message_visibility = λ url handle n w. (done tt, w);
  get_queue_attributes = λ url w. (done (some "0"), w);
  utc_now = λ w. 10;
}

abbrev url : String
url = "https://sqs/default.fifo"

abbrev config : SqsConfig
config = record {
  queue_urls = url ∷ [];
  dlq_url = none;
  visibility_timeout = 30;
  wait_time_seconds = 20;
}

abbrev empty_queue : SqsBroker (List String)
empty_queue = record { server = []; receipts = Map.empty }
