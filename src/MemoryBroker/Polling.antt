-- ===== src/MemoryBroker/Polling.antt =====
-- What `dequeue` of the broker in memory returns: the polls in the order of the requested queues,
-- and the wake-ups.
use kojin.Prelude.{
  ◌≡◌, refl, ap, String, ℕ, Option, none, some, arith, List, ◌++◌, ◌∷◌, [], string_key, nat_key,
  if◌then◌else◌, ◌==◌, All,
}
use kojin.Prelude.Map
use kojin.Prelude.Map.{get-insert}
use kojin.Error.{TaskResult, ok}
use kojin.Message.{TaskMessage}
use kojin.MemoryBroker.{MemoryBroker, queue_at, pop_front, try_pop, dequeue}
use kojin.MemoryBroker.Contract.{waiting, dead, held}

module _ {J : Type 0} where
  -- `b'` is `b` with the first message of queue `q` taken out and held.
  pub record Taken (q : String) (m : TaskMessage J) (b b' : MemoryBroker J) : Type 0 where
    pub rest : List (TaskMessage J)
    pub first : waiting b q ≡ m ∷ rest
    pub waiting : (j : String) → waiting b' j ≡ (if q == j then rest else waiting b j)
    pub dead : (j : String) → dead b' j ≡ dead b j
    pub held : (i : ℕ) → held b' i ≡ (if m.id == i then some m else held b i)

  pub data Polled (names : List String) (b : MemoryBroker J)
      : Option (TaskMessage J × MemoryBroker J) → Type 0 where
    idle : All (λ q. waiting b q ≡ []) names → Polled names b none
    hit :
        (before : List String) (q : String) (after : List String) (m : TaskMessage J)
        (b' : MemoryBroker J)
        → names ≡ before ++ q ∷ after
        → All (λ j. waiting b j ≡ []) before
        → Taken q m b b'
        → Polled names b (some (m, b'))

  later_hit :
      {names : List String} {b : MemoryBroker J} {r : Option (TaskMessage J × MemoryBroker J)}
      (name : String)
      → waiting b name ≡ []
      → Polled names b r
      → Polled (name ∷ names) b r
  later_hit name e (idle a) = idle (e, a)
  later_hit name e (hit before q after m b' p a t) =
      hit (name ∷ before) q after m b' (ap (◌∷◌ name) p) (e, a) t

  waiting_of :
      (name : String) (b : MemoryBroker J) (found : Option (List (TaskMessage J)))
      → Map.get name b.queues ≡ found
      → waiting b name ≡ elim found [ none ↦ [] | some q ↦ q ]
  unfolding queue_at
  waiting_of name b found e = rw (e, queue_at)

  abbrev pub after_pop :
      String → TaskMessage J → List (TaskMessage J) → MemoryBroker J → MemoryBroker J
  after_pop name m rest b = record b {
    queues = Map.insert name rest b.queues;
    processing = Map.insert m.id m b.processing;
  }

  pub waiting-after_pop :
      (name : String) (m : TaskMessage J) (rest : List (TaskMessage J)) (b : MemoryBroker J)
      (j : String)
      → waiting (after_pop name m rest b) j ≡ (if name == j then rest else waiting b j)
  unfolding queue_at
  waiting-after_pop name m rest b j = ground (arith, get-insert name j rest b.queues)

  poll_one :
      (name : String) (names : List String) (b : MemoryBroker J)
      (found : Option (List (TaskMessage J))) (later : Option (TaskMessage J × MemoryBroker J))
      → Map.get name b.queues ≡ found
      → Polled names b later
      → Polled (name ∷ names) b (elim (pop_front found) [
        | none ↦ later
        | some (m, rest) ↦ some (m, after_pop name m rest b)
      ])
  unfolding pop_front
  poll_one name names b none later e p = later_hit name (waiting_of name b none e) p
  poll_one name names b (some []) later e p = later_hit name (waiting_of name b (some []) e) p
  poll_one name names b (some (m ∷ rest)) later e p =
      hit [] name names m (after_pop name m rest b) refl tt (record {
        rest = rest;
        first = waiting_of name b (some (m ∷ rest)) e;
        waiting = waiting-after_pop name m rest b;
        dead = λ j. refl;
        held = λ i. get-insert m.id i m b.processing;
      })

  -- One pass over the requested queues takes the oldest message of the first queue that has any,
  -- and holds it; it falls through only if all of them are empty.
  pub try_pop-Polled : (names : List String) (b : MemoryBroker J) → Polled names b (try_pop names b)
  unfolding try_pop
  try_pop-Polled [] b = idle tt
  try_pop-Polled (name ∷ names) b =
      poll_one name names b (Map.get name b.queues) (try_pop names b) refl (try_pop-Polled names b)

  -- How a waiting call may end: a pass finds a message; or every pass misses, and the timeout comes
  -- after the last wake-up.
  pub data Dequeued (names : List String)
      : List (MemoryBroker J → MemoryBroker J)
        → MemoryBroker J
        → TaskResult (Option (TaskMessage J)) × MemoryBroker J
        → Type 0 where
    found :
        {wakes : List (MemoryBroker J → MemoryBroker J)} {b : MemoryBroker J} (m : TaskMessage J)
        (b' : MemoryBroker J)
        → Polled names b (some (m, b'))
        → Dequeued names wakes b (ok (some m), b')
    timed_out : {b : MemoryBroker J} → Polled names b none → Dequeued names [] b (ok none, b)
    woken :
        (act : MemoryBroker J → MemoryBroker J) {wakes : List (MemoryBroker J → MemoryBroker J)}
        {b : MemoryBroker J} {r : TaskResult (Option (TaskMessage J)) × MemoryBroker J}
        → Polled names b none
        → Dequeued names wakes (act b) r
        → Dequeued names (act ∷ wakes) b r

  dequeue_last :
      (names : List String) (b : MemoryBroker J) (r : Option (TaskMessage J × MemoryBroker J))
      → Polled names b r
      → Dequeued names [] b (elim r [ none ↦ (ok none, b) | some (m, b') ↦ (ok (some m), b') ])
  dequeue_last names b none p = timed_out p
  dequeue_last names b (some (m, b')) p = found m b' p

  dequeue_next :
      (names : List String) (act : MemoryBroker J → MemoryBroker J)
      (wakes : List (MemoryBroker J → MemoryBroker J)) (b : MemoryBroker J)
      (r : Option (TaskMessage J × MemoryBroker J))
      (waited : TaskResult (Option (TaskMessage J)) × MemoryBroker J)
      → Polled names b r
      → Dequeued names wakes (act b) waited
      → Dequeued names (act ∷ wakes) b (elim r [ none ↦ waited | some (m, b') ↦ (ok (some m), b') ])
  dequeue_next names act wakes b none waited p d = woken act p d
  dequeue_next names act wakes b (some (m, b')) waited p d = found m b' p

  -- Whatever other tasks do between the wake-ups, `dequeue` never fails, returns a message by the
  -- first pass that finds one, and times out only if every pass, the one after the last wake-up
  -- included, finds the requested queues empty.
  pub dequeue-Dequeued :
      (names : List String) (wakes : List (MemoryBroker J → MemoryBroker J)) (b : MemoryBroker J)
      → Dequeued names wakes b (dequeue names wakes b)
  unfolding dequeue
  dequeue-Dequeued names [] b = dequeue_last names b (try_pop names b) (try_pop-Polled names b)
  dequeue-Dequeued names (act ∷ wakes) b =
      dequeue_next names act wakes b (try_pop names b) (dequeue names wakes (act b))
        (try_pop-Polled names b) (dequeue-Dequeued names wakes (act b))
