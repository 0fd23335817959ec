-- ===== src/Agent/Sdd.antt =====
-- kojin-agent/src/sdd.rs: the task that lets an agent write code for a specification, runs a test
-- command, and lets the agent repair the code until the command succeeds or the attempts are used up.
-- `ctx.data` of the runner is an argument; the agent and the test command act on a state `W`.
pub mod Attempts
use Prim.Native.String.{◌++◌ as ◌+++◌}
use kojin.Prelude.{
  ℕ, zero, suc, ◌+◌, ◌%◌, ◌^◌, String, Bool, true, false, Option, none, some, List, [], ◌∷◌, ◌++◌,
  if◌then◌else◌,
}
use kojin.Prelude.Text.{join, take_chars}
use kojin.Error.{KojinError, TaskResult, ok, err, broker, other}
use kojin.Broker.{Action}
use kojin.Remote.{Reply, done, failed}
use kojin.Action.{◌>>=◌, continue, lift, ok_or}
use kojin.Signature
use kojin.Signature.{Signature}
use kojin.Agent.Runner.{
  RunArgs, RunOutput, default_args, with_cwd, ClaudeRunner, Output, Command, System,
}

pub record SddTask (F : Type 0) : Type 0 where
  pub spec : String
  pub test_command : List String
  pub cwd : Option String
  pub max_fix_attempts : ℕ
  pub args : RunArgs F

pub record SddOutput (F : Type 0) : Type 0 where
  pub passed : Bool
  pub attempts : ℕ
  pub gen_output : RunOutput F
  pub fix_outputs : List (RunOutput F)
  pub last_test_stdout : String
  pub last_test_stderr : String

abbrev name : String
name = "sdd"

abbrev queue : String
queue = "agents"

abbrev max_retries : ℕ
max_retries = 0

module _ {F : Type 0} where
  unfoldable pub new : String → SddTask F
  new spec = record {
    spec = spec;
    test_command = "cargo" ∷ "test" ∷ [];
    cwd = none;
    max_fix_attempts = 3;
    args = default_args;
  }

  unfoldable pub with_test_command : SddTask F → List String → SddTask F
  with_test_command t cmd = record t { test_command = cmd }

  set_cwd : SddTask F → String → SddTask F
  set_cwd t cwd = record t { cwd = some cwd }

  unfoldable pub with_max_fix_attempts : SddTask F → ℕ → SddTask F
  with_max_fix_attempts t n = record t { max_fix_attempts = n }

  pub with_args : SddTask F → RunArgs F → SddTask F
  with_args t args = record t { args = args }

  -- The arguments of every run: those of the task, in its directory if it names one.
  pub args_in : Option String → RunArgs F → RunArgs F
  unfolding with_cwd
  args_in none args = args
  args_in (some cwd) args = with_cwd args cwd

  unfoldable pub gen_prompt : SddTask F → String
  gen_prompt t =
      "Implement the following specification. Write the code directly to files.\n\n## Specification\n\n"
      +++ t.spec
      +++ "\n\n## Verification\n\nThe code will be verified by running: `"
      +++ join " " t.test_command
      +++ "`"

  unfoldable pub fix_prompt : SddTask F → String → String → String
  fix_prompt t last_stdout last_stderr =
      "The verification command `"
      +++ join " " t.test_command
      +++ "` failed. Fix the code.\n\n## Test Output\n\n### stdout\n```\n"
      +++ take_chars 4000 last_stdout
      +++ "\n```\n\n### stderr\n```\n"
      +++ take_chars 4000 last_stderr
      +++ "\n```\n\n## Original Specification\n\n"
      +++ t.spec

  -- sdd_sig, where `to_value` is what serde derives for the task
  sdd_sig :
      {J : Type 0}
      → (SddTask F → TaskResult J)
      → String
      → List String
      → RunArgs F
      → TaskResult (Signature J)
  unfolding new with_test_command with_args
  sdd_sig to_value spec test_command args =
      elim (to_value (with_args (with_test_command (new spec) test_command) args)) [
        | err e ↦ err e
        | ok payload ↦
            ok (Signature.with_max_retries (Signature.new name queue payload) max_retries)
      ]

-- Addition of `u32`.
abbrev pub u32_add : ℕ → ℕ → ℕ
u32_add a b = (a + b) % 2 ^ 32

module _ {F B W : Type 0} (sys : System F B W) where
  spawned : Reply (Output B) → TaskResult (Output B)
  spawned (failed e) = err (broker ("failed to run test command: " +++ e))
  spawned (done o) = ok o

  pub run_test_command : List String → Option String → Action W (Output B)
  unfolding spawned
  run_test_command [] cwd w = (err (other "test_command is empty"), w)
  run_test_command (program ∷ arguments) cwd w =
      let (o, w') =
        sys.output (record { program = program; arguments = arguments; current_dir = cwd }) w in
      (spawned o, w')

module _ {F B W : Type 0} (sys : System F B W) (runner : ClaudeRunner F W) (t : SddTask F) where
  -- The three kinds of calls that a run makes.
  pub generate : Action W (RunOutput F)
  unfolding args_in
  generate = runner (gen_prompt t) (args_in t.cwd t.args)

  pub verify : Action W (Output B)
  unfolding run_test_command
  verify = run_test_command sys t.test_command t.cwd

  pub fix : Output B → Action W (RunOutput F)
  unfolding args_in
  fix o =
      runner (fix_prompt t (sys.from_utf8_lossy o.stdout) (sys.from_utf8_lossy o.stderr))
        (args_in t.cwd t.args)

  -- The result after the test number `attempt + 1`.
  abbrev pub output : Bool → ℕ → RunOutput F → List (RunOutput F) → Output B → SddOutput F
  output passed attempt gen_output fix_outputs o = record {
    passed = passed;
    attempts = u32_add attempt 1;
    gen_output = gen_output;
    fix_outputs = fix_outputs;
    last_test_stdout = sys.from_utf8_lossy o.stdout;
    last_test_stderr = sys.from_utf8_lossy o.stderr;
  }

  -- The rounds of `for attempt in 0..=self.max_fix_attempts`: `left` of them follow this one.
  pub attempts_from : ℕ → ℕ → RunOutput F → List (RunOutput F) → Action W (SddOutput F)
  unfolding verify fix
  attempts_from zero attempt gen_output fix_outputs w =
      continue (verify w) λ o w'. (ok (output o.success attempt gen_output fix_outputs o), w')
  attempts_from (suc left) attempt gen_output fix_outputs w = continue (verify w) λ o w'.
      if o.success
      then (ok (output true attempt gen_output fix_outputs o), w')
      else continue (fix o w') λ fix_output w''.
        attempts_from left (attempt + 1) gen_output (fix_outputs ++ fix_output ∷ []) w''

abbrev pub no_runner : KojinError
no_runner = other "ClaudeRunner not configured — add Arc<dyn ClaudeRunner> via KojinBuilder::data()"

-- SddTask::run
unfoldable pub run :
    {F B W : Type 0} → System F B W → Option (ClaudeRunner F W) → SddTask F → Action W (SddOutput F)
unfolding generate attempts_from
run sys ctx t w = continue (ok_or ctx no_runner w) λ runner w1.
    continue (generate sys runner t w1)
      λ gen_output w2. attempts_from sys runner t t.max_fix_attempts 0 gen_output [] w2
