-- ===== src/Cron.antt =====
-- kojin-core/src/cron.rs: the cron scheduler. A `Schedule` of the crate `cron` is a parameter, with
-- `after s t` for the first scheduled time after `t` (`schedule.after(&t).next()`) and `from_str` for
-- its parser. Times are on one scale, on which `second` is one second.
pub mod Ticks
pub mod Firing
pub mod Sent
pub mod Loop
use Prim.Native.String.{◌++◌ as ◌+++◌}
use kojin.Prelude.{
  ℕ, ◌+◌, ◌-◌, String, Bool, true, false, Option, none, some, List, [], ◌∷◌, ◌++◌, leb,
  if◌then◌else◌, string_key,
}
use kojin.Prelude.Map
use kojin.Prelude.Map.{Map}
use kojin.Error.{TaskResult, ok, err, other}
use kojin.Message.{DateTime, Stamp}
use kojin.Signature.{Signature, into_message}
use kojin.Broker.{Broker}

pub record CronEntry (J Schedule : Type 0) : Type 0 where
  pub name : String
  pub schedule : Schedule
  pub signature : Signature J

-- What the parser of the crate returns: a schedule, or the text of its error.
pub data Parsed (Schedule : Type 0) : Type 0 where
  schedule_of : Schedule → Parsed Schedule
  invalid : String → Parsed Schedule

pub record CronRegistry (J Schedule : Type 0) : Type 0 where
  pub entries : List (CronEntry J Schedule)

module _ {J Schedule : Type 0} where
  unfoldable pub parsed_entry :
      String → Signature J → Parsed Schedule → TaskResult (CronEntry J Schedule)
  parsed_entry name signature (invalid e) = err (other ("invalid cron expression: " +++ e))
  parsed_entry name signature (schedule_of s) =
      ok (record { name = name; schedule = s; signature = signature })

  -- CronEntry::new
  unfoldable pub new_entry :
      (String → Parsed Schedule) → String → String → Signature J → TaskResult (CronEntry J Schedule)
  unfolding parsed_entry
  new_entry from_str name expression signature = parsed_entry name signature (from_str expression)

  pub new : CronRegistry J Schedule
  new = record { entries = [] }

  unfoldable pub add : CronEntry J Schedule → CronRegistry J Schedule → CronRegistry J Schedule
  add entry r = record { entries = r.entries ++ entry ∷ [] }

  unfoldable pub is_empty : CronRegistry J Schedule → Bool
  is_empty r = elim r.entries [ [] ↦ true | e ∷ es ↦ false ]

-- The loop's own state, beside that of the broker.
pub record Ticking (S : Type 0) : Type 0 where
  pub last_runs : Map String DateTime
  pub broker : S

module _ {J Schedule : Type 0} where
  -- last_runs.get(&entry.name), or a second ago.
  abbrev pub last_run : ℕ → DateTime → CronEntry J Schedule → Map String DateTime → DateTime
  last_run second now entry last_runs = elim (Map.get entry.name last_runs) [
    | none ↦ now - second
    | some t ↦ t
  ]

abbrev pub is_due :
    {Schedule : Type 0}
    → (Schedule → DateTime → Option DateTime)
    → Schedule
    → DateTime
    → DateTime
    → Bool
is_due after schedule last now = elim (after schedule last) [
  | none ↦ false
  | some next ↦ leb next now
]

module _ {J Schedule S : Type 0} (after : Schedule → DateTime → Option DateTime) (second : ℕ)
    (broker : Broker J S) where
  -- The body of the `for` loop; a failed enqueue is only logged.
  pub check_entry : DateTime → Stamp → CronEntry J Schedule → Ticking S → Ticking S
  check_entry now stamp entry t =
      if is_due after entry.schedule (last_run second now entry t.last_runs) now
      then record {
        last_runs = Map.insert entry.name now t.last_runs;
        broker = (broker.enqueue (into_message stamp entry.signature) t.broker).1;
      }
      else t

  -- One turn of the loop; `stamp i` is what the message of the entry at `i` would get.
  pub tick : DateTime → (ℕ → Stamp) → ℕ → List (CronEntry J Schedule) → Ticking S → Ticking S
  unfolding check_entry
  tick now stamp i [] t = t
  tick now stamp i (entry ∷ entries) t =
      tick now stamp (i + 1) entries (check_entry now (stamp i) entry t)

  -- The loop, one reading of the clock for each turn until it is cancelled.
  pub scheduler_loop :
      CronRegistry J Schedule → List (DateTime × (ℕ → Stamp)) → Ticking S → Ticking S
  unfolding tick
  scheduler_loop registry [] t = t
  scheduler_loop registry ((now, stamp) ∷ turns) t =
      scheduler_loop registry turns (tick now stamp 0 registry.entries t)
