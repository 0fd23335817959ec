-- ===== src/Worker/Loop/Shutdown.antt =====
-- The shutdown of the worker once its token is cancelled.
use kojin.Prelude.{◌≡◌, refl, ap, ◌∙◌, true, List, [], ◌∷◌, length, arith}
use kojin.Message.{TaskMessage}
use kojin.Worker.{Worker, World, Reading}
use kojin.Worker.Loop.{
  Phase, checking, acquiring, holding, draining, drained, timed_out, RunState, started_with, Steps,
  here, then, break_at_check, break_at_acquire, break_at_dequeue, finish, all_available,
}
use kojin.Worker.Loop.Permits.{held, Steps-Balanced, started_with-Balanced}

-- The worker has not stopped.
abbrev pub IsRunning : Phase → Type 0
IsRunning drained = ⊥
IsRunning timed_out = ⊥
IsRunning _ = Unit

module _ {J C S R M : Type 0} (k : Worker J C S R M) (rd : Reading S) where
  Steps-trans : {s t u : RunState J S R M} → Steps k s t → Steps k t u → Steps k s u
  Steps-trans r here = r
  Steps-trans r (then r' x) = then (Steps-trans r r') x

  -- It leaves the loop, whatever it was about.
  record Left (s : RunState J S R M) : Type 0 where
    state : RunState J S R M
    steps : Steps k s state
    out : state.phase ≡ draining
    in_flight : state.in_flight ≡ s.in_flight

  leave :
      (s : RunState J S R M) (p : Phase) → s.phase ≡ p → IsRunning p → s.cancelled ≡ true → Left s
  leave s checking e running c = record {
    state = _;
    steps = then here (break_at_check e c);
    out = refl;
    in_flight = refl;
  }
  leave s acquiring e running c = record {
    state = _;
    steps = then here (break_at_acquire e c);
    out = refl;
    in_flight = refl;
  }
  leave s holding e running c = record {
    state = _;
    steps = then here (break_at_dequeue e c);
    out = refl;
    in_flight = refl;
  }
  leave s drained e running c = absurd running
  leave s timed_out e running c = absurd running
  leave s draining e running c = record { state = s; steps = here; out = e; in_flight = refl }

  -- The tasks in flight finish, the first of them first.
  record Finished (s : RunState J S R M) : Type 0 where
    state : RunState J S R M
    steps : Steps k s state
    same_phase : state.phase ≡ s.phase
    idle : state.in_flight ≡ []

  finish_all : (ms : List (TaskMessage J)) (s : RunState J S R M) → s.in_flight ≡ ms → Finished s
  finish_all [] s e = record { state = s; steps = here; same_phase = refl; idle = e }
  finish_all (m ∷ ms) s e =
      let one = finish rd [] m ms e in
      let rest = finish_all ms _ refl in
      record {
        state = rest.state;
        steps = Steps-trans (then here one) rest.steps;
        same_phase = rest.same_phase;
        idle = rest.idle;
      }

  pub record Stopped (s : RunState J S R M) : Type 0 where
    pub state : RunState J S R M
    pub steps : Steps k s state
    pub stopped : state.phase ≡ drained
    pub idle : state.in_flight ≡ []

  -- From every state that a worker can reach with its token cancelled and before its deadline, the
  -- worker can stop with every task finished: no permit is lost that the drain loop would wait for.
  pub Steps-Stopped :
      (w : World S R M) (t : RunState J S R M)
      → Steps k (started_with k.config.concurrency w) t
      → t.cancelled ≡ true
      → IsRunning t.phase
      → Stopped t
  Steps-Stopped w t r c running =
      let left = leave t t.phase refl running c in
      let done = finish_all left.state.in_flight left.state refl in
      let steps = Steps-trans left.steps done.steps in
      let phase = done.same_phase ∙ left.out in
      let b =
        Steps-Balanced k (started_with k.config.concurrency w) done.state (Steps-trans r steps)
          (started_with-Balanced k w) in
      record {
        state = _;
        steps =
            then steps
              (all_available phase (omega (arith, b.sum, ap held phase, ap length done.idle)));
        stopped = refl;
        idle = done.idle;
      }
