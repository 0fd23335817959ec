-- ===== src/Broker.antt =====
-- kojin-core/src/broker.rs: the trait `Broker`, as the record of its operations over a state `S`,
-- and what a broker promises to its clients.
use kojin.Prelude.{
  ℕ, String, ◌≡◌, Option, none, List, [], ◌∷◌, ◌++◌, if◌then◌else◌, ◌==◌, string_key, nat_key,
}
use kojin.Error.{TaskResult, ok}
use kojin.Message.{TaskId, DateTime, TaskMessage}

-- A method that changes the state and may fail; what was done before an error stays done.
abbrev pub Action : Type 0 → Type 0 → Type 0
Action S A = S → TaskResult A × S

pub record Broker (J S : Type 0) : Type 0 where
  pub enqueue : TaskMessage J → Action S (Unit {0})
  -- The second argument is what other tasks do to the state while the call waits, one entry for
  -- each time that it is woken; where the list ends the timeout has passed.
  pub dequeue : List String → List (S → S) → Action S (Option (TaskMessage J))
  pub ack : TaskId → Action S (Unit {0})
  pub nack : TaskMessage J → Action S (Unit {0})
  pub dead_letter : TaskMessage J → Action S (Unit {0})
  pub schedule : TaskMessage J → DateTime → Action S (Unit {0})
  pub queue_len : String → Action S ℕ
  pub dlq_len : String → Action S ℕ
  pub list_queues : Action S (List String)
  pub dlq_messages : String → ℕ → ℕ → Action S (List (TaskMessage J))

-- The bodies that the trait gives to the methods which a broker may leave out.
unfoldable pub default_dlq_len : {S : Type 0} → String → Action S ℕ
default_dlq_len queue s = (ok 0, s)

unfoldable pub default_list_queues : {S : Type 0} → Action S (List String)
default_list_queues s = (ok [], s)

unfoldable pub default_dlq_messages :
    {J S : Type 0} → String → ℕ → ℕ → Action S (List (TaskMessage J))
default_dlq_messages queue offset limit s = (ok [], s)

-- What a client can see of a broker: the messages that wait in a queue, oldest first, those that
-- are dead, and those that a worker holds.
pub record View (J S : Type 0) : Type 0 where
  pub waiting : S → String → List (TaskMessage J)
  pub dead : S → String → List (TaskMessage J)
  pub held : S → TaskId → Option (TaskMessage J)

module _ {J S : Type 0} (v : View J S) where
  -- `t` is `s` with `m` waiting last in its queue.
  pub record Waits (m : TaskMessage J) (s t : S) : Type 0 where
    pub waiting :
        (q : String)
        → v.waiting t q ≡ (if m.queue == q then v.waiting s q ++ m ∷ [] else v.waiting s q)
    pub dead : (q : String) → v.dead t q ≡ v.dead s q

  -- `t` is `s` with `m` last among the dead of its queue.
  pub record Dies (m : TaskMessage J) (s t : S) : Type 0 where
    pub waiting : (q : String) → v.waiting t q ≡ v.waiting s q
    pub dead :
        (q : String) → v.dead t q ≡ (if m.queue == q then v.dead s q ++ m ∷ [] else v.dead s q)

  pub record SameQueues (s t : S) : Type 0 where
    pub waiting : (q : String) → v.waiting t q ≡ v.waiting s q
    pub dead : (q : String) → v.dead t q ≡ v.dead s q

  -- Nobody holds the id `i` any more; what is held under another id is as before.
  abbrev pub LetsGo : TaskId → S → S → Type 0
  LetsGo i s t = (j : TaskId) → v.held t j ≡ (if i == j then none else v.held s j)

  abbrev pub KeepsHeld : S → S → Type 0
  KeepsHeld s t = (j : TaskId) → v.held t j ≡ v.held s j

-- The contract of the trait: what each operation that changes the state does to the view.
pub record IsBroker {J S : Type 0} (b : Broker J S) (v : View J S) : Type 0 where
  pub enqueue_ok : (m : TaskMessage J) (s : S) → (b.enqueue m s).0 ≡ ok tt
  pub enqueue_waits : (m : TaskMessage J) (s : S) → Waits v m s (b.enqueue m s).1
  pub enqueue_held : (m : TaskMessage J) (s : S) → KeepsHeld v s (b.enqueue m s).1
  pub ack_ok : (i : TaskId) (s : S) → (b.ack i s).0 ≡ ok tt
  pub ack_queues : (i : TaskId) (s : S) → SameQueues v s (b.ack i s).1
  pub ack_lets_go : (i : TaskId) (s : S) → LetsGo v i s (b.ack i s).1
  pub nack_ok : (m : TaskMessage J) (s : S) → (b.nack m s).0 ≡ ok tt
  pub nack_waits : (m : TaskMessage J) (s : S) → Waits v m s (b.nack m s).1
  pub nack_lets_go : (m : TaskMessage J) (s : S) → LetsGo v m.id s (b.nack m s).1
  pub dead_letter_ok : (m : TaskMessage J) (s : S) → (b.dead_letter m s).0 ≡ ok tt
  pub dead_letter_dies : (m : TaskMessage J) (s : S) → Dies v m s (b.dead_letter m s).1
  pub dead_letter_lets_go : (m : TaskMessage J) (s : S) → LetsGo v m.id s (b.dead_letter m s).1
