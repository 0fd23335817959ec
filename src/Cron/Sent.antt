-- ===== src/Cron/Sent.antt =====
-- What the cron scheduler enqueues for one of its entries.
use kojin.Prelude.{
  ℕ, ◌+◌, ◌≡◌, refl, ap, String, Option, List, [], ◌∷◌, ◌++◌, length, arith, string_key, ◌==◌,
  if◌then◌else◌, Bool-cases, inl, inr,
}
use kojin.Prelude.Map.{Map}
use kojin.Message.{DateTime, Stamp, TaskMessage}
use kojin.Signature.{into_message}
use kojin.Broker.{Broker}
use kojin.Canvas.Groups.{on_queue}
use kojin.Cron.{CronEntry}
use kojin.Cron.Ticks.{fires, due_messages}

abbrev pub Turns : Type 0
Turns = List (DateTime × (ℕ → Stamp))

-- At most one message for each of the entries, in their order.
pub data From {J Schedule : Type 0}
    : List (CronEntry J Schedule) → List (TaskMessage J) → Type 0 where
  no_entry : From [] []
  made :
      {es : List (CronEntry J Schedule)} {ms : List (TaskMessage J)} (e : CronEntry J Schedule)
      (s : Stamp)
      → From es ms
      → From (e ∷ es) (into_message s e.signature ∷ ms)
  passed_by :
      {es : List (CronEntry J Schedule)} {ms : List (TaskMessage J)} (e : CronEntry J Schedule)
      → From es ms
      → From (e ∷ es) ms

-- The messages of the turns, where `e` runs at the given times: one of `e` at each turn at which it
-- runs and none at the others, between those of the entries that stand before and after it.
pub data Sent {J Schedule : Type 0} (before : List (CronEntry J Schedule))
    (e : CronEntry J Schedule) (rest : List (CronEntry J Schedule))
    : Turns → List DateTime → List (TaskMessage J) → Type 0 where
  no_turn : Sent before e rest [] [] []
  ran :
      {turns : Turns} {times : List DateTime} {pre post ms : List (TaskMessage J)} (now : DateTime)
      (stamp : ℕ → Stamp)
      → From before pre
      → From rest post
      → Sent before e rest turns times ms
      → Sent before e rest
          ((now, stamp) ∷ turns)
          (now ∷ times)
          ((pre ++ into_message (stamp (length before)) e.signature ∷ post) ++ ms)
  idle :
      {turns : Turns} {times : List DateTime} {pre post ms : List (TaskMessage J)} (now : DateTime)
      (stamp : ℕ → Stamp)
      → From before pre
      → From rest post
      → Sent before e rest turns times ms
      → Sent before e rest ((now, stamp) ∷ turns) times ((pre ++ post) ++ ms)

module _ {J : Type 0} where
  pub on_queue-append :
      (q : String) (a b : List (TaskMessage J)) → on_queue q (a ++ b) ≡ on_queue q a ++ on_queue q b
  unfolding on_queue
  on_queue-append q [] b = refl
  on_queue-append q (m ∷ a) b = elim (Bool-cases (m.queue == q)) [
    | inl on ↦ rw (on, on_queue-append q a b) refl
    | inr off ↦ rw (off, on_queue-append q a b) refl
  ]

module _ {J Schedule S : Type 0} (after : Schedule → DateTime → Option DateTime) (second : ℕ)
    (broker : Broker J S) (now : DateTime) (stamp : ℕ → Stamp) (lr : Map String DateTime) where
  abbrev pub due : ℕ → List (CronEntry J Schedule) → List (TaskMessage J)
  due i es = due_messages after second broker now stamp i es lr

  pub due_messages-From : (i : ℕ) (es : List (CronEntry J Schedule)) → From es (due i es)
  unfolding due_messages
  due_messages-From i [] = no_entry
  due_messages-From i (e ∷ es) = elim (Bool-cases (fires after second broker now stamp e lr)) [
    | inl h ↦ rw h (made e (stamp i) (due_messages-From (i + 1) es))
    | inr h ↦ rw h (passed_by e (due_messages-From (i + 1) es))
  ]

  -- The entry `e` stands at the index `at`.
  pub due_messages-middle :
      (i : ℕ) (before : List (CronEntry J Schedule)) (e : CronEntry J Schedule)
      (rest : List (CronEntry J Schedule)) (at : ℕ)
      → i + length before ≡ at
      → (post : List (TaskMessage J)) × From rest post
        × (due i (before ++ e ∷ rest)
            ≡ due i before
              ++ (if fires after second broker now stamp e lr
                  then into_message (stamp at) e.signature ∷ post
                  else post))
  unfolding due_messages
  due_messages-middle i [] e rest at p =
      let post = due (i + 1) rest in
      let here : i ≡ at = omega (arith, p) in
      (
        post,
        due_messages-From (i + 1) rest,
        ap
            (λ (j : ℕ).
              if fires after second broker now stamp e lr
              then into_message (stamp j) e.signature ∷ post
              else post)
            here,
      )
  due_messages-middle i (e' ∷ before) e rest at p =
      let (post, from, split) = due_messages-middle (i + 1) before e rest at (omega (arith, p)) in
      (
        post,
        from,
        elim (Bool-cases (fires after second broker now stamp e' lr)) [
          | inl h ↦ rw (h, split) refl
          | inr h ↦ rw (h, split) refl
        ],
      )
