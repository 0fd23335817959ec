-- ===== src/Cron/Loop.antt =====
-- One entry of the cron scheduler over the turns of the loop.
use mathlib.Core.List.{append-nil, append_assoc}
use kojin.Prelude.{
  ℕ, ◌-◌, subst, ◌≡◌, refl, sym, ap, ◌∙◌, String, Bool, true, false, Option, none, some, List, [],
  ◌∷◌, ◌++◌, map, length, All, if◌then◌else◌, arith, string_key, Bool-cases, inl, inr,
}
use kojin.Prelude.Map
use kojin.Message.{DateTime, Stamp, TaskMessage}
use kojin.Signature.{into_message}
use kojin.Broker
use kojin.Broker.{Broker, IsBroker}
use kojin.Canvas.Groups.{on_queue}
use kojin.Cron.{CronEntry, CronRegistry, Ticking, is_due, tick, scheduler_loop}
use kojin.Cron.Ticks.{Unrepeated, fires, tick-Ticked}
use kojin.Cron.Firing.{IsSchedule, Answered, runs, runs-Answered}
use kojin.Cron.Sent.{
  Turns, From, Sent, no_turn, ran, idle, on_queue-append, due, due_messages-From,
  due_messages-middle,
}

-- The last of the runs, or the one before them.
pub final : DateTime → List DateTime → DateTime
final last [] = last
final last (time ∷ times) = final time times

All-at {ℓ κ} :
    {A : Type ℓ} (P : A → Type κ) (before : List A) (x : A) (after : List A)
    → All P (before ++ x ∷ after)
    → P x
All-at P [] x after h = h.0
All-at P (y ∷ before) x after h = All-at P before x after h.1

module _ {J Schedule S : Type 0} (after : Schedule → DateTime → Option DateTime) (second : ℕ)
    (broker : Broker J S) (At : Schedule → DateTime → Type 0) (lawful : IsSchedule after At)
    (v : Broker.View J S) (delivers : IsBroker broker v) (registry : CronRegistry J Schedule)
    (unrepeated : Unrepeated registry.entries) (before : List (CronEntry J Schedule))
    (e : CronEntry J Schedule) (rest : List (CronEntry J Schedule))
    (registered : registry.entries ≡ before ++ e ∷ rest) where
  tick_last :
      (now : DateTime) (stamp : ℕ → Stamp) (t : Ticking S) (last : DateTime)
      → Map.get e.name t.last_runs ≡ some last
      → Map.get e.name (tick after second broker now stamp 0 registry.entries t).last_runs
        ≡ (if is_due after e.schedule last now then some now else some last)
  tick_last now stamp t last h =
      let t' = tick after second broker now stamp 0 registry.entries t in
      let ran =
        (tick-Ticked after second broker now stamp v delivers 0 registry.entries t
          unrepeated).ran in
      All-at
        (λ e. Map.get e.name t'.last_runs ≡ (
          if fires after second broker now stamp e t.last_runs
          then some now
          else Map.get e.name t.last_runs))
        before e rest (subst (All _) registered ran)
      ∙ ap
          (λ (o : Option DateTime).
            if is_due after e.schedule (elim o [ none ↦ now - second | some t ↦ t ]) now
            then some now
            else o)
          h

  loop_last :
      (turns : Turns) (t : Ticking S) (last : DateTime)
      → Map.get e.name t.last_runs ≡ some last
      → Map.get e.name (scheduler_loop after second broker registry turns t).last_runs
        ≡ some (final last (runs after e.schedule last (map (λ turn. turn.0) turns)))
  unfolding scheduler_loop runs final
  loop_last [] t last h = h
  loop_last ((now, stamp) ∷ turns) t last h =
      let t' = tick after second broker now stamp 0 registry.entries t in
      elim (Bool-cases (is_due after e.schedule last now)) [
        | inl h' ↦ rw h' (loop_last turns t' now (tick_last now stamp t last h ∙ rw h' refl))
        | inr h' ↦ rw h' (loop_last turns t' last (tick_last now stamp t last h ∙ rw h' refl))
      ]

  -- The messages of one turn, with `e` due or not.
  tick_sends :
      (now : DateTime) (stamp : ℕ → Stamp) (t : Ticking S) (last : DateTime) (b : Bool)
      → Map.get e.name t.last_runs ≡ some last
      → is_due after e.schedule last now ≡ b
      → (pre post : List (TaskMessage J)) × From before pre
        × From rest post
        × ((q : String)
            → v.waiting (tick after second broker now stamp 0 registry.entries t).broker q
              ≡ v.waiting t.broker q
                ++ on_queue q (
                    pre
                    ++ (if b
                        then into_message (stamp (length before)) e.signature ∷ post
                        else post)))
  tick_sends now stamp t last b h fires_as =
      let lr = t.last_runs in
      let (post, from, split) =
        due_messages-middle after second broker now stamp lr 0 before e rest (length before)
          (omega arith) in
      let pre = due after second broker now stamp lr 0 before in
      let same : fires after second broker now stamp e lr ≡ b =
        ap
          (λ (o : Option DateTime).
            is_due after e.schedule (elim o [ none ↦ now - second | some t ↦ t ]) now)
          h
        ∙ fires_as in
      let m = into_message (stamp (length before)) e.signature in
      let enqueued : due after second broker now stamp lr 0 registry.entries
          ≡ pre ++ (if b then m ∷ post else post) =
        ap (λ es. due after second broker now stamp lr 0 es) registered
        ∙ split
        ∙ ap (λ (c : Bool). pre ++ (if c then m ∷ post else post)) same in
      (
        pre,
        post,
        due_messages-From after second broker now stamp lr 0 before,
        from,
        λ q.
            (tick-Ticked after second broker now stamp v delivers 0 registry.entries t
                unrepeated).waiting
              q
            ∙ ap (λ l. v.waiting t.broker q ++ on_queue q l) enqueued,
      )

  -- The messages that the rest of the loop adds to those of its first turn.
  waiting_on :
      (q : String) (first ms : List (TaskMessage J)) (s s1 s2 : S)
      → v.waiting s1 q ≡ v.waiting s q ++ on_queue q first
      → v.waiting s2 q ≡ v.waiting s1 q ++ on_queue q ms
      → v.waiting s2 q ≡ v.waiting s q ++ on_queue q (first ++ ms)
  waiting_on q first ms s s1 s2 one two =
      two
      ∙ ap (λ l. l ++ on_queue q ms) one
      ∙ append_assoc (v.waiting s q) (on_queue q first) (on_queue q ms)
      ∙ ap (λ l. v.waiting s q ++ l) (sym (on_queue-append q first ms))

  loop_sends :
      (turns : Turns) (t : Ticking S) (last : DateTime)
      → Map.get e.name t.last_runs ≡ some last
      → (ms : List (TaskMessage J)) × Sent before e rest turns
          (runs after e.schedule last (map (λ turn. turn.0) turns))
          ms
        × ((q : String)
            → v.waiting (scheduler_loop after second broker registry turns t).broker q
              ≡ v.waiting t.broker q ++ on_queue q ms)
  unfolding scheduler_loop runs on_queue
  loop_sends [] t last h = ([], no_turn, λ q. sym (append-nil (v.waiting t.broker q)))
  loop_sends ((now, stamp) ∷ turns) t last h =
      let t' = tick after second broker now stamp 0 registry.entries t in
      elim (Bool-cases (is_due after e.schedule last now)) [
        | inl is ↦ rw is (
            let (pre, post, from, from', one) = tick_sends now stamp t last true h is in
            let (ms, sent, more) =
              loop_sends turns t' now (tick_last now stamp t last h ∙ rw is refl) in
            (
              _,
              ran now stamp from from' sent,
              λ q. waiting_on q _ ms t.broker t'.broker _ (one q) (more q),
            ))
        | inr is ↦ rw is (
            let (pre, post, from, from', one) = tick_sends now stamp t last false h is in
            let (ms, sent, more) =
              loop_sends turns t' last (tick_last now stamp t last h ∙ rw is refl) in
            (
              _,
              idle now stamp from from' sent,
              λ q. waiting_on q _ ms t.broker t'.broker _ (one q) (more q),
            ))
      ]

  -- With a schedule that gives the first scheduled time after each time, and a broker that keeps its
  -- contract: over all turns of the loop, an entry whose name is not repeated and that has run once runs at a
  -- turn exactly when one of its scheduled times lies after its last run and not after the turn: no
  -- scheduled time makes it run twice, and none that a turn has reached is passed over, though
  -- several that lie between two turns make it run once. Its last run is the last of these. At each
  -- turn at which it runs the queues gain one message of its signature, and at the others none,
  -- between messages of the entries before and after it, at most one of each.
  pub scheduler_loop-Answered :
      (turns : Turns) (t : Ticking S) (last : DateTime)
      → Map.get e.name t.last_runs ≡ some last
      → let t' = scheduler_loop after second broker registry turns t in
        (times : List DateTime) × (ms : List (TaskMessage J)) × Answered after At lawful e.schedule
          last
          (map (λ turn. turn.0) turns)
          times
        × (Map.get e.name t'.last_runs ≡ some (final last times))
        × Sent before e rest turns times ms
        × ((q : String) → v.waiting t'.broker q ≡ v.waiting t.broker q ++ on_queue q ms)
  scheduler_loop-Answered turns t last h =
      let nows = map (λ turn. turn.0) turns in
      let (ms, sent, more) = loop_sends turns t last h in
      (
        runs after e.schedule last nows,
        ms,
        runs-Answered after At lawful e.schedule last nows,
        loop_last turns t last h,
        sent,
        more,
      )
