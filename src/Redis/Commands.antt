-- ===== src/Redis/Commands.antt =====
-- The Redis commands of kojin-redis/src, with the arguments that the code gives them. What the crates
-- redis and deadpool_redis and the server do is a parameter of the model.
use kojin.Prelude.{
  ℕ, ◌≡◌, ◌≢◌, String, Bool, true, false, Option, some, List, [], ◌∷◌, ◌++◌, take, leb,
  if◌then◌else◌, ◌==◌, string_key,
}
use kojin.Prelude.Int.{ℤ, pos, negsuc}
use kojin.Remote.{done, Call}

-- The items of a sorted set with their scores, in the order of the set.
abbrev pub Scored : Type 0
Scored = List (String × ℕ)

pub record Commands (W : Type 0) : Type 0 where
  -- Building the pool, and a connection from it.
  pub build_pool : String → ℕ → Call W (Unit {0})
  pub pool_get : Call W (Unit {0})
  -- SET key 1 NX EX ttl, SET key value EX ttl, GET and DEL
  pub set_nx : String → ℕ → Call W Bool
  pub set_ex : String → String → ℕ → Call W (Unit {0})
  pub get : String → Call W (Option String)
  pub del : String → Call W (Unit {0})
  pub lpush : String → String → Call W (Unit {0})
  -- BLMOVE source destination RIGHT LEFT timeout
  pub blmove : String → String → ℕ → Call W (Option String)
  pub lrange : String → ℤ → ℤ → Call W (List String)
  pub lrem : String → ℕ → String → Call W (Unit {0})
  pub llen : String → Call W ℕ
  pub zadd : String → String → ℕ → Call W (Unit {0})
  pub keys : String → Call W (List String)
  -- The run of a script, which no other command interrupts.
  pub invoke : (W → ℕ × W) → Call W ℕ
  -- The commands that the scripts call: ZRANGEBYSCORE key -inf max LIMIT 0 limit,
  -- ZREMRANGEBYSCORE key -inf max, LPUSH, INCR and RPUSH.
  pub zrangebyscore : String → ℕ → ℕ → W → List String
  pub zremrangebyscore : String → ℕ → W → W
  pub script_lpush : String → String → W → W
  pub script_incr : String → W → ℕ × W
  pub script_rpush : String → String → W → W
  pub utc_now : W → ℕ
  pub now_v7 : W → String

-- What can be seen of the server: the lists, first item first, and the sorted sets.
pub record View (W : Type 0) : Type 0 where
  pub lists : W → String → List String
  pub sorted : W → String → Scored

-- The items whose score is at most `max`, and those whose score is above.
abbrev pub due : ℕ → Scored → List String
due max [] = []
due max ((item, score) ∷ items) = if leb score max then item ∷ due max items else due max items

abbrev pub not_due : ℕ → Scored → Scored
not_due max [] = []
not_due max ((item, score) ∷ items) =
    if leb score max then not_due max items else (item, score) ∷ not_due max items

-- What Redis documents of scripts and of the commands that they call, where no call fails and the
-- pool has a free connection.
pub record ScriptsDocumented {W : Type 0} (redis : Commands W) (v : View W) : Type 0 where
  pub pool_get_lem : (w : W) → redis.pool_get w ≡ (done tt, w)
  pub invoke_lem :
      (script : W → ℕ × W) (w : W) → redis.invoke script w ≡ (done (script w).0, (script w).1)
  pub zrangebyscore_lem :
      (key : String) (max limit : ℕ) (w : W)
      → redis.zrangebyscore key max limit w ≡ take limit (due max (v.sorted w key))
  pub zrem_sorted :
      (key : String) (max : ℕ) (w : W) (other : String)
      → v.sorted (redis.zremrangebyscore key max w) other
        ≡ (if key == other then not_due max (v.sorted w key) else v.sorted w other)
  pub zrem_lists :
      (key : String) (max : ℕ) (w : W) (other : String)
      → v.lists (redis.zremrangebyscore key max w) other ≡ v.lists w other
  pub lpush_lists :
      (key item : String) (w : W) (other : String)
      → v.lists (redis.script_lpush key item w) other
        ≡ (if key == other then item ∷ v.lists w other else v.lists w other)
  pub lpush_sorted :
      (key item : String) (w : W) (other : String)
      → v.sorted (redis.script_lpush key item w) other ≡ v.sorted w other

-- What Redis documents of the commands on lists, where no call fails and the pool has a free
-- connection: LPUSH puts an item first; BLMOVE from the right to the left takes the last item, and
-- puts it first, with its list unlike the other; LRANGE from 0 to -1 gives all items; LREM with a
-- count of 1 takes the first item that is equal.
pub record ListsDocumented {W : Type 0} (redis : Commands W) (v : View W) : Type 0 where
  pub pool_get_lem : (w : W) → redis.pool_get w ≡ (done tt, w)
  pub lpush_lem :
      (key item : String) (w : W)
      → (w' : W) × (redis.lpush key item w ≡ (done tt, w'))
        × ((other : String)
            → v.lists w' other ≡ (if key == other then item ∷ v.lists w other else v.lists w other))
  pub blmove_lem :
      (source destination item : String) (front : List String) (timeout : ℕ) (w : W)
      → source ≢ destination
      → v.lists w source ≡ front ++ item ∷ []
      → (w' : W) × (redis.blmove source destination timeout w ≡ (done (some item), w'))
        × (v.lists w' source ≡ front)
        × (v.lists w' destination ≡ item ∷ v.lists w destination)
  pub lrange_lem :
      (key : String) (w : W) → redis.lrange key (pos 0) (negsuc 0) w ≡ (done (v.lists w key), w)
  pub lrem_lem :
      (key item : String) (rest : List String) (w : W)
      → v.lists w key ≡ item ∷ rest
      → (w' : W) × (redis.lrem key 1 item w ≡ (done tt, w'))
        × (v.lists w' key ≡ rest)
        × ((other : String) → key ≢ other → v.lists w' other ≡ v.lists w other)

-- What Redis documents of SET with NX on a key that is there, and that LREM takes no other key away.
pub record DedupDocumented {W : Type 0} (redis : Commands W) (v : View W) (has : W → String → Bool)
    : Type 0 where
  pub on_lists : ListsDocumented redis v
  pub lrem_keeps :
      (key item : String) (w : W) (other : String)
      → has (redis.lrem key 1 item w).1 other ≡ has w other
  pub set_nx_lem :
      (key : String) (ttl : ℕ) (w : W)
      → has w key ≡ true
      → (w' : W) × (redis.set_nx key ttl w ≡ (done false, w'))
        × ((other : String) → v.lists w' other ≡ v.lists w other)
