-- ===== src/Orchestrator.antt =====
-- services/orchestrator: bindings, planning and the worker.
pub mod Variables
pub mod Branch
pub mod StateMachine
pub mod Joins
pub mod Runs
pub mod Runner
pub mod Review
pub mod Egress
