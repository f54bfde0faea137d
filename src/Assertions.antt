-- ===== src/Assertions.antt =====
-- crates/simferret/src/assertions.rs: the assertions of a network-fixture run.
pub mod Report
pub mod Evaluate
pub mod Searches
pub mod Window
pub mod Soundness
pub mod Completeness
pub mod Examples
