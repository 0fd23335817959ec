-- ===== src/Builder/Pipeline.antt =====
-- The pipeline of the built worker.
use mathlib.Core.List.{append-nil, append_assoc}
use kojin.Prelude.{◌≡◌, refl, sym, ◌∙◌, Option, none, some, List, [], ◌∷◌, ◌++◌, arith}
use kojin.Error.{TaskResult, ok, err}
use kojin.Message.{TaskMessage}
use kojin.Middleware.{Middleware}
use kojin.ResultBackend.{ResultBackend}
use kojin.Serde.{Serde}
use kojin.Cron.{CronRegistry}
use kojin.Worker.{run_before, run_after}
use kojin.Builder.{
  KojinBuilder, Built, middleware, add_middlewares, add_result_backend, add_cron, build,
}

module _ {J C S R M Schedule : Type 0} where
  add_middlewares-middlewares :
      (mws : List (Middleware J M)) (b : Built J C S R M Schedule)
      → (add_middlewares mws b).worker.middlewares ≡ b.worker.middlewares ++ mws
  unfolding add_middlewares
  add_middlewares-middlewares [] b = sym (append-nil b.worker.middlewares)
  add_middlewares-middlewares (mw ∷ mws) b =
      add_middlewares-middlewares mws _ ∙ append_assoc b.worker.middlewares (mw ∷ []) mws

  add_result_backend-middlewares :
      (rb : Option (ResultBackend J R)) (b : Built J C S R M Schedule)
      → (add_result_backend rb b).worker.middlewares ≡ b.worker.middlewares
  unfolding add_result_backend
  add_result_backend-middlewares none b = refl
  add_result_backend-middlewares (some rb) b = refl

  add_cron-middlewares :
      (r : CronRegistry J Schedule) (b : Built J C S R M Schedule)
      → (add_cron r b).worker.middlewares ≡ b.worker.middlewares
  unfolding add_cron
  add_cron-middlewares r b = ground arith

  build-middlewares :
      (serde : Serde J) (b : KojinBuilder J C S R M Schedule)
      → (build serde b).worker.middlewares ≡ b.middlewares
  unfolding build
  build-middlewares serde b =
      add_cron-middlewares b.cron_registry _
      ∙ add_result_backend-middlewares b.result_backend _
      ∙ add_middlewares-middlewares b.middlewares _

module _ {J M : Type 0} where
  -- What a hook that stands last adds to what the others returned.
  pub then_before :
      Middleware J M → TaskMessage J → TaskResult (Unit {0}) × M → TaskResult (Unit {0}) × M
  then_before mw m (err e, s) = (err e, s)
  then_before mw m (ok u, s) = mw.before m s

  run_before-last :
      (mws : List (Middleware J M)) (mw : Middleware J M) (m : TaskMessage J) (s : M)
      → run_before (mws ++ mw ∷ []) m s ≡ then_before mw m (run_before mws m s)
  unfolding run_before then_before
  run_before-last [] mw m s = ground arith
  run_before-last (mw' ∷ mws) mw m s = ground (arith, run_before-last mws mw m (mw'.before m s).1)

  run_after-last :
      (mws : List (Middleware J M)) (mw : Middleware J M) (m : TaskMessage J) (result : J) (s : M)
      → run_after (mws ++ mw ∷ []) m result s ≡ (mw.after m result (run_after mws m result s)).1
  unfolding run_after
  run_after-last [] mw m result s = refl
  run_after-last (mw' ∷ mws) mw m result s = run_after-last mws mw m result _

-- A middleware that is added to a builder stands last in the pipeline of the worker that is built: its
-- `before` runs if and only if every other `before` has let the message pass, on the state that they
-- leave, and its `after` runs after every other `after`.
pub build-middleware :
    {J C S R M Schedule : Type 0} (serde : Serde J) (mw : Middleware J M)
    (b : KojinBuilder J C S R M Schedule) (m : TaskMessage J) (result : J) (s : M)
    → let with = (build serde (middleware mw b)).worker.middlewares in
      let without = (build serde b).worker.middlewares in
      (run_before with m s ≡ then_before mw m (run_before without m s))
      × (run_after with m result s ≡ (mw.after m result (run_after without m result s)).1)
build-middleware serde mw b m result s =
    rw (build-middlewares serde (middleware mw b), build-middlewares serde b)
      (run_before-last b.middlewares mw m s, run_after-last b.middlewares mw m result s)
