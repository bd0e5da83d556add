-- ===== src/Application.antt =====
-- crates/governance-application: the services that move a run through its evaluation.
pub mod Ports
pub mod Calls
mod Tests
pub mod Finalization
pub mod Completion
pub mod Evaluation
