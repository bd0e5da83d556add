-- ===== src/Evaluator.antt =====
-- crates/governance-evaluator/src/lib.rs: deterministic rules over an evidence bundle.
pub mod Matching
pub mod Assertion
pub mod Requirement
pub mod Rule
pub mod Pack
mod Tests
