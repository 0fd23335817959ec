-- ===== src/Redis/Broker/Scheduled.antt =====
-- What the script for scheduled messages of kojin-redis/src/scripts.rs moves, and what it loses.
use Prim.Native.String.{◌++◌ as ◌+++◌}
use mathlib.Core.List.{reverse, reverse-cons, append_assoc}
use kojin.Prelude.{
  ℕ, suc, ◌≡◌, refl, sym, ap, ◌∙◌, String, List, [], ◌∷◌, ◌++◌, take, length, min, length-take,
  if_same, if◌then◌else◌, ◌==◌, string_key, Bool-cases, inl, inr, arith,
}
use kojin.Prelude.Text.{remove_all}
use kojin.Error.{ok}
use kojin.Message.{TaskId}
use kojin.Action.{continue}
use kojin.Serde.{MessageSerde}
use kojin.Redis.Keys.{queue, scheduled}
use kojin.Redis.Commands.{Commands, View, Scored, due, not_due, ScriptsDocumented}
use kojin.Redis.Broker.{
  RedisBroker, push_all, size, move_due, poll_scheduled_script, poll_scheduled,
}

-- The items whose message goes to the queue with this key, in their order.
abbrev pub for_key : (String → String) → String → List String → List String
for_key key_of key [] = []
for_key key_of key (item ∷ items) =
    if key_of item == key then item ∷ for_key key_of key items else for_key key_of key items

-- What a poll at the time `now` does to the lists and to the set `key` of scheduled messages: all that
-- are due leave the set, the first hundred of them are pushed on the lists of their queues, in their
-- order, and their number is the answer.
pub record Moved {W : Type 0} (v : View W) (key_of : String → String) (key : String) (now : ℕ)
    (w : W) (n : ℕ) (w' : W) : Type 0 where
  pub count : n ≡ min 100 (length (due now (v.sorted w key)))
  pub lists :
      (other : String)
      → v.lists w' other
        ≡ reverse (for_key key_of other (take 100 (due now (v.sorted w key)))) ++ v.lists w other
  pub left : v.sorted w' key ≡ not_due now (v.sorted w key)

size-length : (items : List String) → size items ≡ length items
unfolding size
size-length [] = refl
size-length (item ∷ items) = omega (arith, size-length items)

-- Where nothing is due, everything is not due.
not_due-all :
    (max limit : ℕ) (items : Scored)
    → take (suc limit) (due max items) ≡ []
    → not_due max items ≡ items
not_due-all max limit [] h = refl
not_due-all max limit ((item, score) ∷ items) h = ground (arith, not_due-all max limit items)

module _ {W : Type 0} (redis : Commands W) (v : View W) (documented : ScriptsDocumented redis v)
    (queue_of : String → String) (prefix : String) where
  abbrev key_of : String → String
  key_of item = prefix +++ ":queue:" +++ queue_of item

  push_all-lists :
      (items : List String) (w : W) (key : String)
      → v.lists (push_all redis queue_of prefix items w) key
        ≡ reverse (for_key key_of key items) ++ v.lists w key
  unfolding push_all
  push_all-lists [] w key = refl
  push_all-lists (item ∷ items) w key =
      let w1 = redis.script_lpush (key_of item) item w in
      let ih = push_all-lists items w1 key in
      let pushed = documented.lpush_lists (key_of item) item w key in
      elim (Bool-cases (key_of item == key)) [
        | inl e ↦ rw e (
            ih
            ∙ ap (λ l. reverse (for_key key_of key items) ++ l) (pushed ∙ rw e refl)
            ∙ sym (append_assoc (reverse (for_key key_of key items)) (item ∷ []) (v.lists w key))
            ∙ ap (λ l. l ++ v.lists w key) (sym (reverse-cons item (for_key key_of key items))))
        | inr e ↦ rw e (ih ∙ ap (λ l. reverse (for_key key_of key items) ++ l) (pushed ∙ rw e refl))
      ]

  push_all-sorted :
      (items : List String) (w : W) (key : String)
      → v.sorted (push_all redis queue_of prefix items w) key ≡ v.sorted w key
  unfolding push_all
  push_all-sorted [] w key = refl
  push_all-sorted (item ∷ items) w key =
      push_all-sorted items (redis.script_lpush (key_of item) item w) key
      ∙ documented.lpush_sorted (key_of item) item w key

  move_due-Moved :
      (key : String) (now : ℕ) (items : List String) (w : W)
      → take 100 (due now (v.sorted w key)) ≡ items
      → let r = move_due redis queue_of key now prefix items w in Moved v key_of key now w r.0 r.1
  unfolding move_due
  move_due-Moved key now [] w h = record {
    count = omega (arith, length-take 100 (due now (v.sorted w key)), ap (length {0}) h);
    lists = λ other. rw h refl;
    left = sym (not_due-all now 99 (v.sorted w key) h);
  }
  move_due-Moved key now (item ∷ items) w h =
      let w1 = push_all redis queue_of prefix (item ∷ items) w in
      record {
        count = omega (
          arith,
          length-take 100 (due now (v.sorted w key)),
          ap (length {0}) h,
          size-length (item ∷ items),
        );
        lists = λ other.
            documented.zrem_lists key now w1 other
            ∙ push_all-lists (item ∷ items) w other
            ∙ ap (λ l. reverse (for_key key_of other l) ++ v.lists w other) (sym h);
        left =
            documented.zrem_sorted key now w1 key
            ∙ if_same key key _ _ refl
            ∙ ap (not_due now) (push_all-sorted (item ∷ items) w key);
      }

module _ {J W : Type 0} (redis : Commands W) (v : View W) (documented : ScriptsDocumented redis v)
    (serde : MessageSerde J) (queue_of : String → String) (to_string : TaskId → String)
    (b : RedisBroker) where
  -- A poll takes every message that is due out of the scheduled set, but puts only the first hundred
  -- of them on their queues: a due message after those is neither scheduled nor queued any more. Up
  -- to a hundred, all that are due reach their queues in the order of their times. It is assumed that
  -- no call fails and that the prefix of the keys does not contain `:scheduled`.
  pub poll_scheduled-Moved :
      (w : W)
      → remove_all ":scheduled" (scheduled b.keys) ≡ b.keys.prefix
      → (n : ℕ) × (w' : W) × (poll_scheduled redis serde queue_of to_string b w ≡ (ok n, w'))
        × Moved v (λ item. queue b.keys (queue_of item)) (scheduled b.keys) (redis.utc_now w) w n w'
  unfolding poll_scheduled poll_scheduled_script queue
  poll_scheduled-Moved w named =
      let key = scheduled b.keys in
      let now = redis.utc_now w in
      let script = poll_scheduled_script redis queue_of key now b.keys.prefix in
      (
        (script w).0,
        (script w).1,
        rw (documented.pool_get_lem w, continue, named, documented.invoke_lem script w) refl,
        rw (documented.zrangebyscore_lem key now 100 w) (
            move_due-Moved redis v documented queue_of b.keys.prefix key now
              (take 100 (due now (v.sorted w key))) w refl),
      )
