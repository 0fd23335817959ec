-- ===== src/Worker/Loop/Permits.antt =====
-- The permits of the loop and the tasks that are in flight.
use kojin.Prelude.{
  ℕ, suc, ◌+◌, ◌≡◌, ◌≤◌, refl, ap, ◌∙◌, Option, none, some, List, [], ◌∷◌, ◌++◌, length,
  length-append, arith,
}
use kojin.Error.{TaskResult, ok, err}
use kojin.Message.{TaskMessage}
use kojin.Worker.{Worker, World}
use kojin.Worker.Loop.{
  Phase, holding, drained, RunState, started_with, received, Step, Steps, here, then, cancel, go_on,
  break_at_check, acquire, break_at_acquire, receive, break_at_dequeue, finish, all_available,
  deadline,
}

-- The permit in the hand of the loop.
abbrev pub held : Phase → ℕ
held holding = 1
held _ = 0

length-zero {ℓ} : {A : Type ℓ} (xs : List A) → length xs ≡ 0 → xs ≡ []
length-zero [] h = refl
length-zero (x ∷ xs) h = absurd (omega (arith, h))

module _ {J C S R M : Type 0} (k : Worker J C S R M) where
  -- Each permit is available, with the loop, or with a task in flight; and none is out when the loop
  -- has drained.
  pub record Balanced (s : RunState J S R M) : Type 0 where
    pub sum : s.available_permits + held s.phase + length s.in_flight ≡ k.config.concurrency
    pub idle : s.phase ≡ drained → length s.in_flight ≡ 0

  received-Balanced :
      (r : TaskResult (Option (TaskMessage J))) (s : RunState J S R M)
      → s.phase ≡ holding
      → Balanced s
      → Balanced (received r s)
  unfolding received
  received-Balanced (ok (some m)) s p b = record {
    sum = omega (arith, ap held p, b.sum, length-append s.in_flight (m ∷ []));
    idle = λ e. cc;
  }
  received-Balanced (ok none) s p b = record {
    sum = omega (arith, ap held p, b.sum);
    idle = λ e. cc;
  }
  received-Balanced (err e) s p b = record { sum = omega (arith, ap held p, b.sum); idle = λ e. cc }

  Step-Balanced : (s t : RunState J S R M) → Step k s t → Balanced s → Balanced t
  Step-Balanced s _ cancel b = record { sum = b.sum; idle = b.idle }
  Step-Balanced s _ (go_on p c) b = record { sum = omega (arith, ap held p, b.sum); idle = λ e. cc }
  Step-Balanced s _ (break_at_check p c) b = record {
    sum = omega (arith, ap held p, b.sum);
    idle = λ e. cc;
  }
  Step-Balanced s _ (acquire n p e) b = record {
    sum = omega (arith, ap held p, b.sum, e);
    idle = λ e'. cc;
  }
  Step-Balanced s _ (break_at_acquire p c) b = record {
    sum = omega (arith, ap held p, b.sum);
    idle = λ e. cc;
  }
  Step-Balanced s _ (receive wakes p) b =
      received-Balanced _ _ p (record { sum = b.sum; idle = b.idle })
  Step-Balanced s _ (break_at_dequeue p c) b = record {
    sum = omega (arith, ap held p, b.sum);
    idle = λ e. cc;
  }
  Step-Balanced s _ (finish rd before m after e) b =
      let removed : length s.in_flight ≡ suc (length (before ++ after)) =
        ap length e ∙ omega (arith, length-append before (m ∷ after), length-append before after) in
      record {
        sum = omega (arith, b.sum, removed);
        idle = λ p. absurd (omega (arith, b.idle p, removed));
      }
  Step-Balanced s _ (all_available p e) b = record {
    sum = omega (arith, ap held p, b.sum);
    idle = λ d. omega (arith, ap held p, b.sum, e);
  }
  Step-Balanced s _ (deadline p) b = record {
    sum = omega (arith, ap held p, b.sum);
    idle = λ e. cc;
  }

  pub Steps-Balanced : (s t : RunState J S R M) → Steps k s t → Balanced s → Balanced t
  Steps-Balanced s _ here b = b
  Steps-Balanced s u (then r step) b = Step-Balanced _ u step (Steps-Balanced s _ r b)

  pub started_with-Balanced : (w : World S R M) → Balanced (started_with k.config.concurrency w)
  started_with-Balanced w = record { sum = omega arith; idle = λ e. cc }

  -- Whatever the broker answers, whatever the tasks do and whenever the token is cancelled: never
  -- more than `concurrency` tasks are in flight, and when the worker has stopped without its
  -- deadline, none is.
  pub Steps-in_flight :
      (w : World S R M) (t : RunState J S R M)
      → Steps k (started_with k.config.concurrency w) t
      → (length t.in_flight ≤ k.config.concurrency) × (t.phase ≡ drained → t.in_flight ≡ [])
  Steps-in_flight w t r =
      let b = Steps-Balanced (started_with k.config.concurrency w) t r (started_with-Balanced w) in
      (omega (arith, b.sum), λ e. length-zero t.in_flight (b.idle e))
