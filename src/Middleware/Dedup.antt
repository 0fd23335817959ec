-- ===== src/Middleware/Dedup.antt =====
-- kojin-core/src/middleware/dedup.rs: deduplication by key. `now` is what `Instant::now()` returns
-- to the call, in the unit of `ttl`; `duration_since` stops at zero.
pub mod Once
use kojin.Prelude.{ℕ, ◌-◌, String, Bool, Option, none, some, ltb, if◌then◌else◌, string_key}
use kojin.Prelude.Map
use kojin.Prelude.Map.{Map}
use kojin.Error.{TaskResult, ok, err, duplicate}
use kojin.Message.{TaskMessage}
use kojin.Broker.{Action}
use kojin.Middleware.{Middleware, default_after, default_on_error}

pub record DeduplicationMiddleware : Type 0 where
  pub seen : Map String ℕ
  pub ttl : ℕ

abbrev pub new : ℕ → DeduplicationMiddleware
new ttl = record { seen = Map.empty; ttl = ttl }

-- now.duration_since(v) < self.ttl
abbrev pub is_fresh : ℕ → ℕ → ℕ → Bool
is_fresh now ttl v = ltb (now - v) ttl

-- Remove expired entries.
pub cleanup : ℕ → DeduplicationMiddleware → DeduplicationMiddleware
cleanup now s = record s { seen = Map.retain (is_fresh now s.ttl) s.seen }

-- The match on the entry of a key.
enter : ℕ → String → Option ℕ → Action DeduplicationMiddleware Unit
enter now key none s = (ok tt, record s { seen = Map.insert key now s.seen })
enter now key (some v) s =
    if is_fresh now s.ttl v
    then (err (duplicate key), s)
    else (ok tt, record s { seen = Map.insert key now s.seen })

before_key : ℕ → Option String → Action DeduplicationMiddleware Unit
unfolding enter
before_key now none s = (ok tt, s)
before_key now (some key) s = enter now key (Map.get key s.seen) s

module _ {J : Type 0} where
  unfoldable pub before : ℕ → TaskMessage J → Action DeduplicationMiddleware Unit
  unfolding before_key
  before now m s = before_key now m.dedup_key s

  -- The middleware as it stands in a worker's pipeline at the time `now`.
  abbrev pub dedup_middleware : ℕ → Middleware J DeduplicationMiddleware
  dedup_middleware now = record {
    before = before now;
    after = default_after;
    on_error = default_on_error;
  }
