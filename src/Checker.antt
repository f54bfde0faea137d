-- ===== src/Checker.antt =====
-- crates/simferret/src/checker.rs: the workload checker of the host.
pub mod Utf8
pub mod Streams
pub mod Trace
pub mod Views
pub mod Returns
pub mod ProcessSafety
pub mod Responses
pub mod Faults
pub mod Phases
pub mod Answered
pub mod Integrity
pub mod Evaluate
pub mod Transitions
pub mod WorkloadRun
pub mod Order
pub mod Origin
pub mod Orderly
pub mod RecordOrder
pub mod SafeRun
pub mod Lines
pub mod Reading
pub mod Examples
