-- ===== src/Scheduler.antt =====
-- inference-api/src/scheduler
pub mod Requests
pub mod Queues
pub mod Results
pub mod State
pub mod Dispatching
pub mod Service
pub mod Responses
pub mod Inference
pub mod Events
pub mod Invariant
pub mod Histories
pub mod Dispatches
pub mod Concurrency
pub mod Admission
pub mod Cancelling
pub mod Endings
pub mod Streaming
pub mod Tests
