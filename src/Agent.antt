-- ===== src/Agent.antt =====
-- kojin-agent/src: agents as tasks. `Runner` is the run of an agent, `Tasks` the task of one run
-- with its limit on concurrent runs, `Sdd` the loop that generates code, tests it and repairs it.
pub mod Runner
pub mod Sdd
pub mod Tasks
