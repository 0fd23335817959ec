-- ===== src/Agent/Runner.antt =====
-- kojin-agent/src/runner.rs: the arguments and the output of an agent run, the trait `ClaudeRunner`,
-- and the runner that starts a child process. `F` stands for `f64`, a path is its text. Log calls
-- are left out.
use Prim.Native.String.{◌++◌ as ◌+++◌}
use kojin.Prelude.{ℕ, String, Bool, Option, none, some, List, [], ◌∷◌, ◌++◌, if◌then◌else◌}
use kojin.Prelude.Text.{join, is_empty, trim, to_decimal}
use kojin.Error.{KojinError, TaskResult, ok, err, broker, task_failed}
use kojin.Broker.{Action}
use kojin.Remote.{Reply, done, failed, Call}

pub record RunArgs (F : Type 0) : Type 0 where
  pub model : Option String
  pub system_prompt : Option String
  pub max_turns : Option ℕ
  pub max_budget_usd : Option F
  pub allowed_tools : Option (List String)
  pub cwd : Option String

pub record RunOutput (F : Type 0) : Type 0 where
  pub result : String
  pub session_id : Option String
  pub cost_usd : Option F
  pub duration_ms : Option ℕ
  pub num_turns : Option ℕ

module _ {F : Type 0} where
  -- RunArgs::default()
  abbrev pub default_args : RunArgs F
  default_args = record {
    model = none;
    system_prompt = none;
    max_turns = none;
    max_budget_usd = none;
    allowed_tools = none;
    cwd = none;
  }

  with_model : RunArgs F → String → RunArgs F
  with_model a model = record a { model = some model }

  with_system_prompt : RunArgs F → String → RunArgs F
  with_system_prompt a prompt = record a { system_prompt = some prompt }

  with_max_turns : RunArgs F → ℕ → RunArgs F
  with_max_turns a max_turns = record a { max_turns = some max_turns }

  with_max_budget_usd : RunArgs F → F → RunArgs F
  with_max_budget_usd a budget = record a { max_budget_usd = some budget }

  with_allowed_tools : RunArgs F → List String → RunArgs F
  with_allowed_tools a tools = record a { allowed_tools = some tools }

  unfoldable pub with_cwd : RunArgs F → String → RunArgs F
  with_cwd a cwd = record a { cwd = some cwd }

-- The trait: a run with a prompt and arguments, over the state `W` that agents share.
abbrev pub ClaudeRunner : Type 0 → Type 0 → Type 0
ClaudeRunner F W = String → RunArgs F → Action W (RunOutput F)

-- std::process::Output. The bytes of the streams are a type `B`.
pub record Output (B : Type 0) : Type 0 where
  pub success : Bool
  pub status : String
  pub stdout : B
  pub stderr : B

-- A command line: the program, its arguments and the directory that it runs in.
pub record Command : Type 0 where
  pub program : String
  pub arguments : List String
  pub current_dir : Option String

pub record RawOutput (F : Type 0) : Type 0 where
  pub result : Option String
  pub session_id : Option String
  pub cost_usd : Option F
  pub duration_ms : Option ℕ
  pub num_turns : Option ℕ

-- What the program calls: the operating system, which runs a command, and serde_json.
pub record System (F B W : Type 0) : Type 0 where
  pub output : Command → Call W (Output B)
  pub from_utf8_lossy : B → String
  pub from_slice : B → Reply (RawOutput F)
  pub f64_to_string : F → String

pub record ProcessRunner : Type 0 where
  pub claude_bin : Option String

pub new : ProcessRunner
new = record { claude_bin = none }

pub with_bin : String → ProcessRunner
with_bin bin = record { claude_bin = some bin }

bin : ProcessRunner → String
bin r = elim r.claude_bin [ none ↦ "claude" | some path ↦ path ]

-- An optional argument and its value.
flag : {A : Type 0} → String → (A → String) → Option A → List String
flag name show none = []
flag name show (some a) = name ∷ show a ∷ []

-- `unwrap_or_default` of a text.
or_default : Option String → String
or_default none = ""
or_default (some s) = s

module _ {F B W : Type 0} (sys : System F B W) where
  unfoldable pub arguments : String → RunArgs F → List String
  unfolding flag
  arguments prompt args =
      ("--bare" ∷ "-p" ∷ prompt ∷ "--output-format" ∷ "json" ∷ "--no-session-persistence" ∷ [])
      ++ flag "--model" (λ s. s) args.model
      ++ flag "--append-system-prompt" (λ s. s) args.system_prompt
      ++ flag "--max-turns" to_decimal args.max_turns
      ++ flag "--max-budget-usd" sys.f64_to_string args.max_budget_usd
      ++ flag "--allowedTools" (join ",") args.allowed_tools

  pub command : ProcessRunner → String → RunArgs F → Command
  unfolding bin arguments
  command r prompt args = record {
    program = bin r;
    arguments = arguments prompt args;
    current_dir = args.cwd;
  }

  -- The error of a process that ended without success.
  pub exit_error : Output B → KojinError
  exit_error o =
      let stderr = sys.from_utf8_lossy o.stderr in
      let tail = if is_empty stderr then sys.from_utf8_lossy o.stdout else "" in
      task_failed ("claude exited with " +++ o.status +++ ": " +++ trim stderr +++ tail)

  pub parsed : B → Reply (RawOutput F) → TaskResult (RunOutput F)
  unfolding or_default
  parsed stdout (failed e) = err (
      task_failed (
        "failed to parse claude JSON output: "
        +++ e
        +++ "\nstdout: "
        +++ sys.from_utf8_lossy stdout))
  parsed stdout (done raw) = ok (record {
    result = or_default raw.result;
    session_id = raw.session_id;
    cost_usd = raw.cost_usd;
    duration_ms = raw.duration_ms;
    num_turns = raw.num_turns;
  })

  pub finished : Reply (Output B) → TaskResult (RunOutput F)
  unfolding exit_error parsed
  finished (failed e) = err (broker ("failed to spawn claude process: " +++ e))
  finished (done o) =
      if o.success then parsed o.stdout (sys.from_slice o.stdout) else err (exit_error o)

  -- ProcessRunner::run
  unfoldable pub run : ProcessRunner → ClaudeRunner F W
  unfolding command finished
  run r prompt args w = let (o, w') = sys.output (command r prompt args) w in (finished o, w')
