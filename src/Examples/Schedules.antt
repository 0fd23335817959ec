-- ===== src/Examples/Schedules.antt =====
-- The theorems on the cron scheduler for a schedule of every tenth second.
use kojin.Prelude.{
  ℕ, ◌+◌, ◌*◌, ◌/◌, ◌≡◌, refl, Option, some, List, [], ◌∷◌, ◌++◌, String, arith, string_key,
}
use kojin.Prelude.Map
use kojin.Message.{DateTime, Stamp, TaskMessage}
use kojin.Signature
use kojin.Signature.{Signature}
use kojin.MemoryBroker
use kojin.MemoryBroker.{MemoryBroker, memory_broker}
use kojin.MemoryBroker.Contract.{view, memory_broker-IsBroker}
use kojin.Cron.{CronEntry, CronRegistry, Ticking, tick, scheduler_loop}
use kojin.Cron.Ticks.{Ticked, tick-Ticked}
use kojin.Cron.Firing.{IsSchedule, Answered}
use kojin.Cron.Sent.{Turns, Sent}
use kojin.Cron.Loop.{final, scheduler_loop-Answered}
use kojin.Canvas.Groups.{on_queue}

-- The one schedule: the multiples of ten.
abbrev tens : Unit {0} → DateTime → Option DateTime
tens s t = some ((t / 10 + 1) * 10)

abbrev IsTen : Unit {0} → DateTime → Type 0
IsTen s u = (n : ℕ) × (u ≡ n * 10)

tens-IsSchedule : IsSchedule tens IsTen
tens-IsSchedule = record {
  found = λ s t n e. ((t / 10 + 1, ground (arith, e)), ground (arith, e));
  first = λ s t n u e at later. ground (arith, e, at, later);
  nothing = λ s t u e at. absurd (ground (arith, e));
}

abbrev entry : CronEntry ℕ Unit
entry = record { name = "tens"; schedule = tt; signature = Signature.new "double" "default" 1 }

abbrev registry : CronRegistry ℕ Unit
registry = record { entries = entry ∷ [] }

abbrev stamps : ℕ → Stamp
stamps i = record { id = i; now = 0 }

abbrev before_turns : Ticking (MemoryBroker ℕ)
before_turns = record { last_runs = ("tens", 5) ∷ []; broker = MemoryBroker.new }

abbrev turns : Turns
turns = (9, stamps) ∷ (12, stamps) ∷ (13, stamps) ∷ (31, stamps) ∷ []

tick-Ticked_example :
    Ticked tens 1 memory_broker 12 stamps view memory_broker-IsBroker 0
      (entry ∷ [])
      before_turns
      (tick tens 1 memory_broker 12 stamps 0 (entry ∷ []) before_turns)
tick-Ticked_example =
    tick-Ticked tens 1 memory_broker 12 stamps view memory_broker-IsBroker 0 (entry ∷ [])
      before_turns (tt, tt)

-- The turns at 12 and 31 run the entry, the others do not.
scheduler_loop-Answered_example :
    let t = scheduler_loop tens 1 memory_broker registry turns before_turns in
    (times : List DateTime) × (ms : List (TaskMessage ℕ)) × Answered tens IsTen tens-IsSchedule tt 5
      (9 ∷ 12 ∷ 13 ∷ 31 ∷ [])
      times
    × (Map.get "tens" t.last_runs ≡ some (final 5 times))
    × Sent [] entry [] turns times ms
    × ((q : String) → view.waiting t.broker q ≡ view.waiting before_turns.broker q ++ on_queue q ms)
unfolding Map.get
scheduler_loop-Answered_example =
    scheduler_loop-Answered tens 1 memory_broker IsTen tens-IsSchedule view memory_broker-IsBroker
      registry (tt, tt) [] entry [] refl turns before_turns 5 refl
