-- ===== src/Redis/Keys.antt =====
-- kojin-redis/src/keys.rs: the names of the keys. A worker id and a task id come as their texts.
pub mod Apart
use Prim.Native.String.{◌++◌ as ◌+++◌}
use kojin.Prelude.{String}

pub record KeyBuilder : Type 0 where
  pub prefix : String

pub new : String → KeyBuilder
new prefix = record { prefix = prefix }

unfoldable pub queue : KeyBuilder → String → String
queue k name = k.prefix +++ ":queue:" +++ name

unfoldable pub processing : KeyBuilder → String → String
processing k worker_id = k.prefix +++ ":processing:" +++ worker_id

unfoldable pub scheduled : KeyBuilder → String
scheduled k = k.prefix +++ ":scheduled"

pub dlq : KeyBuilder → String → String
dlq k name = k.prefix +++ ":dlq:" +++ name

pub message : KeyBuilder → String → String
message k id = k.prefix +++ ":msg:" +++ id

pub result : KeyBuilder → String → String
result k id = k.prefix +++ ":result:" +++ id

unfoldable pub group_total : KeyBuilder → String → String
group_total k group_id = k.prefix +++ ":group:" +++ group_id +++ ":total"

pub group_completed : KeyBuilder → String → String
group_completed k group_id = k.prefix +++ ":group:" +++ group_id +++ ":completed"

pub group_results : KeyBuilder → String → String
group_results k group_id = k.prefix +++ ":group:" +++ group_id +++ ":results"

unfoldable pub dedup : KeyBuilder → String → String
dedup k key = k.prefix +++ ":dedup:" +++ key
