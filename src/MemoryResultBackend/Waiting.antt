-- ===== src/MemoryResultBackend/Waiting.antt =====
-- What `wait` of the result backend in memory returns.
use kojin.Prelude.{ℕ, ◌≡◌, refl, Option, none, some, List, [], ◌∷◌, string_key}
use kojin.Prelude.Map
use kojin.Error.{TaskResult, ok, err, timeout}
use kojin.Message.{TaskId}
use kojin.MemoryResultBackend.{MemoryResultBackend, get, poll, wait}
use kojin.Prelude.{String}

module _ {J : Type 0} (to_string : TaskId → String) (id : TaskId) (limit : ℕ) where
  abbrev result : MemoryResultBackend J → Option J
  result b = Map.get (to_string id) b.results

  pub data Waited
      : List (MemoryResultBackend J → MemoryResultBackend J)
        → MemoryResultBackend J
        → TaskResult J × MemoryResultBackend J
        → Type 0 where
    arrived :
        {sleeps : List (MemoryResultBackend J → MemoryResultBackend J)} {b : MemoryResultBackend J}
        (a : J)
        → result b ≡ some a
        → Waited sleeps b (ok a, b)
    timed_out : {b : MemoryResultBackend J} → result b ≡ none → Waited [] b (err (timeout limit), b)
    slept :
        (act : MemoryResultBackend J → MemoryResultBackend J)
        {sleeps : List (MemoryResultBackend J → MemoryResultBackend J)} {b : MemoryResultBackend J}
        {r : TaskResult J × MemoryResultBackend J}
        → result b ≡ none
        → Waited sleeps (act b) r
        → Waited (act ∷ sleeps) b r

  wait_last :
      (b : MemoryResultBackend J) (o : Option J)
      → result b ≡ o
      → Waited [] b (poll (ok o) b (err (timeout limit), b))
  unfolding poll
  wait_last b none e = timed_out e
  wait_last b (some a) e = arrived a e

  wait_next :
      (act : MemoryResultBackend J → MemoryResultBackend J)
      (sleeps : List (MemoryResultBackend J → MemoryResultBackend J)) (b : MemoryResultBackend J)
      (later : TaskResult J × MemoryResultBackend J) (o : Option J)
      → result b ≡ o
      → Waited sleeps (act b) later
      → Waited (act ∷ sleeps) b (poll (ok o) b later)
  unfolding poll
  wait_next act sleeps b later none e w = slept act e w
  wait_next act sleeps b later (some a) e w = arrived a e

  -- Whatever other tasks do during the sleeps, `wait` returns the first result that one of its polls
  -- sees, and times out only if none of them sees one, the poll at the deadline included; it changes
  -- nothing itself.
  pub wait-Waited :
      (sleeps : List (MemoryResultBackend J → MemoryResultBackend J)) (b : MemoryResultBackend J)
      → Waited sleeps b (wait to_string id limit sleeps b)
  unfolding wait get
  wait-Waited [] b = wait_last b (result b) refl
  wait-Waited (act ∷ sleeps) b =
      wait_next act sleeps b (wait to_string id limit sleeps (act b)) (result b) refl
        (wait-Waited sleeps (act b))
