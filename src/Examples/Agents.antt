-- ===== src/Examples/Agents.antt =====
-- The loop of the coding agent at a concrete agent and test command. The state counts the runs of
-- the agent; the test command succeeds once there were three of them.
use kojin.Prelude.{ℕ, Bool, ◌+◌, ◌≡◌, refl, String, none, some, [], ◌∷◌, leb, arith}
use kojin.Error.{ok, err}
use kojin.Prelude.Text.{join}
use kojin.Remote.{done, failed}
use kojin.Agent.Runner
use kojin.Agent.Runner.{RunOutput, System, ClaudeRunner, ProcessRunner, arguments, default_args}
use kojin.Agent.Sdd
use kojin.Agent.Sdd.{SddTask, run, no_runner, with_max_fix_attempts}
use kojin.Agent.Sdd.Attempts.{Settled, run-Settled}

abbrev machine : System ℕ String ℕ
machine = record {
  output = λ command runs. (
    done (record { success = leb 3 runs; status = "exit status"; stdout = "out"; stderr = "" }),
    runs,
  );
  from_utf8_lossy = λ s. s;
  from_slice = λ s. failed "not JSON";
  f64_to_string = λ n. "1";
}

abbrev said : RunOutput ℕ
said = record {
  result = "done";
  session_id = none;
  cost_usd = none;
  duration_ms = none;
  num_turns = none;
}

abbrev agent : ClaudeRunner ℕ ℕ
agent prompt args runs = (ok said, runs + 1)

abbrev stack_task : SddTask ℕ
stack_task = Sdd.new "Implement a stack"

run-Settled_example :
    (run machine none stack_task 0 ≡ (err no_runner, 0))
    × Settled machine agent stack_task 0
        (run machine (some agent) stack_task 0).0
        (run machine (some agent) stack_task 0).1
unfolding Sdd.new
run-Settled_example = run-Settled machine agent stack_task 0 (omega arith)

passes_third_time : run machine (some agent) stack_task 0 ≡ (
  ok (record {
    passed = Bool.true;
    attempts = 3;
    gen_output = said;
    fix_outputs = said ∷ said ∷ [];
    last_test_stdout = "out";
    last_test_stderr = "";
  }),
  3,
)
unfolding run Sdd.new
passes_third_time = refl

gives_up : run machine (some agent) (with_max_fix_attempts stack_task 1) 0 ≡ (
  ok (record {
    passed = Bool.false;
    attempts = 2;
    gen_output = said;
    fix_outputs = said ∷ [];
    last_test_stdout = "out";
    last_test_stderr = "";
  }),
  2,
)
unfolding run Sdd.new with_max_fix_attempts
gives_up = refl

-- The order of the flags.
abbrev careful : Runner.RunArgs ℕ
careful = record default_args { model = some "sonnet"; allowed_tools = some ("Read" ∷ "Edit" ∷ []) }

arguments_test :
    arguments machine "p" careful
    ≡ "--bare" ∷ "-p" ∷ "p" ∷ "--output-format" ∷ "json" ∷ "--no-session-persistence" ∷ "--model"
      ∷ "sonnet" ∷ "--allowedTools" ∷ "Read,Edit" ∷ []
unfolding arguments join
arguments_test = refl
