-- ===== src/Cron/Ticks.antt =====
-- One turn of the cron scheduler, for all of its entries.
use mathlib.Core.List.{append-nil, append_assoc}
use kojin.Prelude.{
  ℕ, ◌+◌, ◌-◌, ◌≡◌, refl, sym, ap, ◌∙◌, String, Bool, false, Option, none, some, List, [], ◌∷◌,
  ◌++◌, All, arith, string_key, ◌==◌, if◌then◌else◌, same_refl, Bool-cases, inl, inr,
}
use kojin.Prelude.Map
use kojin.Prelude.Map.{Map, get-insert, get-insert_self}
use kojin.Message.{DateTime, Stamp, TaskMessage}
use kojin.Signature.{into_message}
use kojin.Broker
use kojin.Broker.{Broker, IsBroker}
use kojin.Canvas.Groups.{on_queue}
use kojin.Cron.{CronEntry, Ticking, last_run, is_due, check_entry, tick}

-- No two entries have the same name.
abbrev pub Unrepeated : {J Schedule : Type 0} → List (CronEntry J Schedule) → Type 0
Unrepeated [] = Unit
Unrepeated (e ∷ es) = All (λ other. (e.name == other.name) ≡ false) es × Unrepeated es

All-zip {ℓ κ} :
    {A : Type ℓ} {P Q R : A → Type κ} (xs : List A)
    → ((x : A) → P x → Q x → R x)
    → All P xs
    → All Q xs
    → All R xs
All-zip [] f p q = tt
All-zip (x ∷ xs) f p q = (f x p.0 q.0, All-zip xs f p.1 q.1)

All-map {ℓ κ} :
    {A : Type ℓ} {P Q : A → Type κ} (xs : List A) → ((x : A) → P x → Q x) → All P xs → All Q xs
All-map [] f p = tt
All-map (x ∷ xs) f p = (f x p.0, All-map xs f p.1)

==_sym : (a b : String) → (a == b) ≡ false → (b == a) ≡ false
==_sym a b h = ground (arith, string_key.same_iff a b, string_key.same_iff b a)

module _ {J Schedule S : Type 0} (after : Schedule → DateTime → Option DateTime) (second : ℕ)
    (broker : Broker J S) (now : DateTime) (stamp : ℕ → Stamp) where
  abbrev pub fires : CronEntry J Schedule → Map String DateTime → Bool
  fires e last_runs = is_due after e.schedule (last_run second now e last_runs) now

  -- The messages of the entries that are due at `last_runs`.
  unfoldable pub due_messages :
      ℕ → List (CronEntry J Schedule) → Map String DateTime → List (TaskMessage J)
  due_messages i [] last_runs = []
  due_messages i (e ∷ es) last_runs =
      let rest = due_messages (i + 1) es last_runs in
      if fires e last_runs then into_message (stamp i) e.signature ∷ rest else rest

  check_entry-last_runs :
      (s : Stamp) (e : CronEntry J Schedule) (t : Ticking S) (name : String)
      → Map.get name (check_entry after second broker now s e t).last_runs ≡ (
          if e.name == name
          then (if fires e t.last_runs then some now else Map.get name t.last_runs)
          else Map.get name t.last_runs)
  unfolding check_entry
  check_entry-last_runs s e t name = elim (Bool-cases (fires e t.last_runs)) [
    | inl due ↦ rw due (ground (arith, get-insert e.name name now t.last_runs))
    | inr idle ↦ rw idle (ground arith)
  ]

  check_entry-other :
      (s : Stamp) (e : CronEntry J Schedule) (t : Ticking S) (name : String)
      → (e.name == name) ≡ false
      → Map.get name (check_entry after second broker now s e t).last_runs
        ≡ Map.get name t.last_runs
  check_entry-other s e t name h = rw (check_entry-last_runs s e t name, h) refl

  -- Whether an entry fires depends on its own last run alone.
  fires_same :
      (e : CronEntry J Schedule) (lr lr' : Map String DateTime)
      → Map.get e.name lr' ≡ Map.get e.name lr
      → fires e lr' ≡ fires e lr
  fires_same e lr lr' h =
      ap
        (λ (o : Option DateTime).
          is_due after e.schedule (elim o [ none ↦ now - second | some t ↦ t ]) now)
        h

  ran_same :
      (e : CronEntry J Schedule) (lr lr' : Map String DateTime)
      → Map.get e.name lr' ≡ Map.get e.name lr
      → (if fires e lr' then some now else Map.get e.name lr')
        ≡ (if fires e lr then some now else Map.get e.name lr)
  ran_same e lr lr' h = rw (fires_same e lr lr' h, h) refl

  due_messages_same :
      (i : ℕ) (es : List (CronEntry J Schedule)) (lr lr' : Map String DateTime)
      → All (λ e. Map.get e.name lr' ≡ Map.get e.name lr) es
      → due_messages i es lr' ≡ due_messages i es lr
  unfolding due_messages
  due_messages_same i [] lr lr' h = refl
  due_messages_same i (e ∷ es) lr lr' h =
      rw (fires_same e lr lr' h.0, due_messages_same (i + 1) es lr lr' h.1) refl

  module _ (v : Broker.View J S) (lawful : IsBroker broker v) where
    -- What a turn has done for the entries `es`, the first of which stands at `i`.
    pub record Ticked (i : ℕ) (es : List (CronEntry J Schedule)) (t t' : Ticking S) : Type 0 where
      pub ran :
          All
            (λ e.
              Map.get e.name t'.last_runs
              ≡ (if fires e t.last_runs then some now else Map.get e.name t.last_runs))
            es
      pub others :
          (name : String)
          → All (λ e. (e.name == name) ≡ false) es
          → Map.get name t'.last_runs ≡ Map.get name t.last_runs
      pub waiting :
          (q : String)
          → v.waiting t'.broker q
            ≡ v.waiting t.broker q ++ on_queue q (due_messages i es t.last_runs)

    waiting-check_entry :
        (i : ℕ) (e : CronEntry J Schedule) (es : List (CronEntry J Schedule)) (t : Ticking S)
        (q : String)
        → v.waiting (check_entry after second broker now (stamp i) e t).broker q
            ++ on_queue q (due_messages (i + 1) es t.last_runs)
          ≡ v.waiting t.broker q ++ on_queue q (due_messages i (e ∷ es) t.last_runs)
    unfolding check_entry due_messages on_queue
    waiting-check_entry i e es t q = elim (Bool-cases (fires e t.last_runs)) [
      | inl due ↦ rw due (
          ground (
            arith,
            (lawful.enqueue_waits (into_message (stamp i) e.signature) t.broker).waiting q,
            append_assoc (v.waiting t.broker q) (into_message (stamp i) e.signature ∷ [])
                (on_queue q (due_messages (i + 1) es t.last_runs)),
          ))
      | inr idle ↦ rw idle refl
    ]

    -- If no name is repeated, a turn runs every entry that is due, going by the last runs from before
    -- the turn, and no other: the last run of each of these entries is then the time of the turn, every
    -- other last run is as before, and the queues have gained one message for each of them, in the
    -- order of the registry.
    pub tick-Ticked :
        (i : ℕ) (es : List (CronEntry J Schedule)) (t : Ticking S)
        → Unrepeated es
        → Ticked i es t (tick after second broker now stamp i es t)
    unfolding tick due_messages on_queue
    tick-Ticked i [] t u = record {
      ran = tt;
      others = λ name h. refl;
      waiting = λ q. sym (append-nil (v.waiting t.broker q));
    }
    tick-Ticked i (e ∷ es) t u =
        let t1 = check_entry after second broker now (stamp i) e t in
        let rest = tick-Ticked (i + 1) es t1 u.1 in
        let same = All-map es (λ e' h. check_entry-other (stamp i) e t e'.name h) u.0 in
        record {
          ran = (
            rest.others e.name (All-map es (λ e' h. ==_sym e.name e'.name h) u.0)
                ∙ check_entry-last_runs (stamp i) e t e.name
                ∙ rw (same_refl e.name) refl,
            All-zip es (λ e' p q. p ∙ ran_same e' t.last_runs t1.last_runs q) rest.ran same,
          );
          others = λ name h. rest.others name h.1 ∙ check_entry-other (stamp i) e t name h.0;
          waiting = λ q.
              rest.waiting q
              ∙ ap (λ l. v.waiting t1.broker q ++ on_queue q l)
                  (due_messages_same (i + 1) es t.last_runs t1.last_runs same)
              ∙ waiting-check_entry i e es t q;
        }
