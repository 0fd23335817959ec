-- ===== src/Amqp/Config.antt =====
-- kojin-amqp/src/config.rs: the configuration of the broker.
use kojin.Prelude.{ℕ, String, min}

pub record AmqpConfig : Type 0 where
  pub url : String
  pub exchange : String
  pub dlx_exchange : String
  pub delayed_exchange : String
  pub prefetch_count : ℕ
  pub max_priority : ℕ

unfoldable pub new : String → AmqpConfig
new url = record {
  url = url;
  exchange = "kojin.direct";
  dlx_exchange = "kojin.dlx";
  delayed_exchange = "kojin.delayed";
  prefetch_count = 10;
  max_priority = 0;
}

with_exchange : AmqpConfig → String → AmqpConfig
with_exchange c exchange = record c { exchange = exchange }

with_prefetch_count : AmqpConfig → ℕ → AmqpConfig
with_prefetch_count c count = record c { prefetch_count = count }

unfoldable pub with_max_priority : AmqpConfig → ℕ → AmqpConfig
with_max_priority c max_priority = record c { max_priority = min max_priority 10 }
