-- ===== src/Agent/Tasks.antt =====
-- kojin-agent/src/task.rs, helpers.rs and concurrency.rs: the task of one agent run, the signature
-- for it, and the runner that limits how many runs there are at a time.
use kojin.Prelude.{ℕ, suc, ◌+◌, ◌≡◌, refl, String, Option, arith}
use kojin.Error.{TaskResult, ok, err}
use kojin.Broker.{Action}
use kojin.Action.{continue, ok_or}
use kojin.Signature
use kojin.Signature.{Signature}
use kojin.Agent.Runner.{RunArgs, RunOutput, ClaudeRunner, default_args}
use kojin.Agent.Sdd.{no_runner}

pub record ClaudeCodeTask (F : Type 0) : Type 0 where
  pub prompt : String
  pub args : RunArgs F

abbrev name : String
name = "claude_code"

abbrev queue : String
queue = "agents"

abbrev max_retries : ℕ
max_retries = 1

module _ {F : Type 0} where
  new : String → ClaudeCodeTask F
  new prompt = record { prompt = prompt; args = default_args }

  with_args : String → RunArgs F → ClaudeCodeTask F
  with_args prompt args = record { prompt = prompt; args = args }

  -- ClaudeCodeTask::run; the runner is `ctx.data`.
  run : {W : Type 0} → Option (ClaudeRunner F W) → ClaudeCodeTask F → Action W (RunOutput F)
  run ctx t w = continue (ok_or ctx no_runner w) λ runner w'. runner t.prompt t.args w'

  -- claude_sig, where `to_value` is what serde derives for the task
  claude_sig :
      {J : Type 0}
      → (ClaudeCodeTask F → TaskResult J)
      → String
      → RunArgs F
      → TaskResult (Signature J)
  unfolding with_args
  claude_sig to_value prompt args = elim (to_value (with_args prompt args)) [
    | err e ↦ err e
    | ok payload ↦ ok (Signature.with_max_retries (Signature.new name queue payload) max_retries)
  ]

-- SemaphoreRunner: the permits that are free, and the calls of `run` that wait for one, that hold
-- one, and that have returned.
pub record SemaphoreRunner : Type 0 where
  pub available_permits : ℕ
  pub waiting : ℕ
  pub running : ℕ
  pub returned : ℕ

unfoldable pub semaphore : ℕ → SemaphoreRunner
semaphore max_concurrent = record {
  available_permits = max_concurrent;
  waiting = 0;
  running = 0;
  returned = 0;
}

-- `run` is called; it gets a permit and starts the inner run; the inner run returns, with a result
-- or an error, and the permit is dropped.
pub data Step (s : SemaphoreRunner) : SemaphoreRunner → Type 0 where
  called : Step s (record s { waiting = suc s.waiting })
  acquired :
      {p n : ℕ}
      → s.available_permits ≡ suc p
      → s.waiting ≡ suc n
      → Step s (record s { available_permits = p; waiting = n; running = suc s.running })
  inner_returned :
      {n : ℕ}
      → s.running ≡ suc n
      → Step s (record s {
        available_permits = suc s.available_permits;
        running = n;
        returned = suc s.returned;
      })

pub data Steps (s : SemaphoreRunner) : SemaphoreRunner → Type 0 where
  here : Steps s s
  next : {t u : SemaphoreRunner} → Steps s t → Step t u → Steps s u

-- No step makes or loses a permit.
Step-permits :
    {s t : SemaphoreRunner}
    → Step s t
    → t.running + t.available_permits ≡ s.running + s.available_permits
Step-permits called = refl
Step-permits (acquired p n) = omega arith
Step-permits (inner_returned n) = omega arith

-- The inner runs and the free permits are together the limit, after any steps.
pub Steps-permits :
    {max_concurrent : ℕ} {s : SemaphoreRunner}
    → Steps (semaphore max_concurrent) s
    → s.running + s.available_permits ≡ max_concurrent
unfolding semaphore
Steps-permits here = omega arith
Steps-permits (next r st) = omega (arith, Steps-permits r, Step-permits st)
