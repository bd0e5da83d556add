-- ===== src/Domain.antt =====
-- crates/governance-domain: the contracts that the other crates share.
pub mod Ids
pub mod Events
pub mod Run
pub mod Import
pub mod Collection
mod Tests
