-- ===== src/Tests.antt =====
-- The theorems at concrete inputs, and tests of the definitions.
pub mod Samples
mod Graphs
mod Planner
mod Ledgers
mod Queues
mod Runs
mod Reviews
mod Logs
pub mod Memories
mod Agents
mod Calls
mod Connections
