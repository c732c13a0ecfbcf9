-- ===== src/Completions.antt =====
-- inference-api/src/completions: the service, the records that it stores, the controller in front of
-- it, and the scheduler and the metrics behind it.
pub mod Records
pub mod Calls
pub mod Service
pub mod Filing
pub mod Histories
pub mod Promises
pub mod Controller
pub mod Answers
pub mod Endings
pub mod Streams
mod Tests
