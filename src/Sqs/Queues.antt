-- ===== src/Sqs/Queues.antt =====
-- kojin-sqs/src/config.rs, and the names of queues in kojin-sqs/src/broker.rs. Timeouts are `i32`
-- seconds that are not negative.
use kojin.Prelude.{
  ℕ, String, Bool, Option, none, some, List, [], ◌∷◌, if◌then◌else◌, ◌==◌, string_key,
}
use kojin.Prelude.Map
use kojin.Prelude.Map.{Map}
use kojin.Prelude.Text.{last_segment, strip_suffix, ends_with}

pub record SqsConfig : Type 0 where
  pub queue_urls : List String
  pub dlq_url : Option String
  pub visibility_timeout : ℕ
  pub wait_time_seconds : ℕ

pub new : List String → SqsConfig
new queue_urls = record {
  queue_urls = queue_urls;
  dlq_url = none;
  visibility_timeout = 30;
  wait_time_seconds = 20;
}

pub with_dlq_url : SqsConfig → String → SqsConfig
with_dlq_url c url = record c { dlq_url = some url }

with_visibility_timeout : SqsConfig → ℕ → SqsConfig
with_visibility_timeout c seconds = record c { visibility_timeout = seconds }

with_wait_time_seconds : SqsConfig → ℕ → SqsConfig
with_wait_time_seconds c seconds = record c { wait_time_seconds = seconds }

-- The last path segment, without the suffix `.fifo`.
unfoldable pub queue_name_from_url : String → String
queue_name_from_url url =
    let segment = last_segment b'/' url in
    elim (strip_suffix ".fifo" segment) [ none ↦ segment | some name ↦ name ]

-- SqsBroker::is_fifo
unfoldable pub is_fifo : String → Bool
is_fifo url = ends_with ".fifo" url

-- The loop of SqsBroker::new over the urls.
pub names_from : List String → Map String String → Map String String
names_from [] names = names
names_from (url ∷ urls) names = names_from urls (Map.insert url (queue_name_from_url url) names)

unfoldable pub queue_names : SqsConfig → Map String String
unfolding names_from
queue_names c = names_from c.queue_urls Map.empty

-- The url of the first entry with this name. The code takes the entries in the order of a `HashMap`,
-- which is any order: two urls with one name are told apart by nothing.
unfoldable pub url_of : String → Map String String → Option String
url_of queue [] = none
url_of queue ((url, name) ∷ names) =
    let later = url_of queue names in if name == queue then some url else later

pub is_url : String → List String → Option String
is_url queue [] = none
is_url queue (url ∷ urls) = if url == queue then some queue else is_url queue urls

-- SqsBroker::resolve_queue_url: by the name, then as a url.
unfoldable pub resolve_queue_url : SqsConfig → String → Option String
unfolding url_of is_url queue_names
resolve_queue_url c queue = elim (url_of queue (queue_names c)) [
  | none ↦ is_url queue c.queue_urls
  | some url ↦ some url
]
