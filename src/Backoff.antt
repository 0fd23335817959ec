-- ===== src/Backoff.antt =====
-- kojin-core/src/backoff.rs: the delay before a retry, in seconds. The fields are `u64`, `retry` is
-- a `u32`; the saturating arithmetic is written out.
pub mod Cap
use kojin.Prelude.{ℕ, ◌*◌, ◌-◌, ◌^◌, min, ltb, if◌then◌else◌}
use kojin.Message.Hash.{u64_mod}

pub data BackoffStrategy : Type 0 where
  fixed : ℕ → BackoffStrategy
  exponential : ℕ → ℕ → BackoffStrategy

abbrev pub u64_max : ℕ
u64_max = u64_mod - 1

-- 1u64.checked_shl(retry).unwrap_or(u64::MAX)
unfoldable pub shl_or_max : ℕ → ℕ
shl_or_max retry = if ltb retry 64 then 2 ^ retry else u64_max

-- u64::saturating_mul
unfoldable pub saturating_mul : ℕ → ℕ → ℕ
saturating_mul a b = min (a * b) u64_max

unfoldable pub delay_for : BackoffStrategy → ℕ → ℕ
unfolding shl_or_max saturating_mul
delay_for (fixed delay_secs) retry = delay_secs
delay_for (exponential base_secs max_secs) retry =
    let delay = saturating_mul base_secs (shl_or_max retry) in min delay max_secs

-- BackoffStrategy::default()
abbrev pub default : BackoffStrategy
default = exponential 1 300
