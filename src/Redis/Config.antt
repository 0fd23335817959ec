-- ===== src/Redis/Config.antt =====
-- kojin-redis/src/config.rs: the configuration of the broker and of the result backend.
use kojin.Prelude.{ℕ, String}

pub record RedisConfig : Type 0 where
  pub url : String
  pub pool_size : ℕ
  pub key_prefix : String
  pub dedup_ttl : ℕ

-- RedisConfig::default()
abbrev pub default : RedisConfig
default = record {
  url = "redis://127.0.0.1:6379";
  pool_size = 10;
  key_prefix = "kojin";
  dedup_ttl = 300;
}

new : String → RedisConfig
new url = record default { url = url }

with_pool_size : RedisConfig → ℕ → RedisConfig
with_pool_size c size = record c { pool_size = size }

with_prefix : RedisConfig → String → RedisConfig
with_prefix c prefix = record c { key_prefix = prefix }

with_dedup_ttl : RedisConfig → ℕ → RedisConfig
with_dedup_ttl c seconds = record c { dedup_ttl = seconds }
