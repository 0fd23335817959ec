-- ===== src/Examples.antt =====
-- The theorems at concrete inputs, and tests of the model.
mod Strings
mod Agents
pub mod Remotes
pub mod Refusals
mod Rabbit
mod Databases
mod Dashboards
mod Contexts
pub mod RedisServer
mod RedisQueues
mod RedisGroups
pub mod Codec
pub mod Sample
pub mod Executions
pub mod Stores
pub mod Texts
pub mod Workflows
pub mod Runs
pub mod Schedules
pub mod Builders
pub mod Duplicates
