-- ===== src/Dispatch.antt =====
-- pool-coordinator/app/services/job_dispatcher.py: how a job is queued, and how the queue is handed
-- to the workers that are online.
pub mod Queueing
pub mod Settings
pub mod Candidates
pub mod Assign
pub mod Best
pub mod Sorting
pub mod Reordered
pub mod Pool
pub mod Capacity
pub mod Limits
pub mod Crash
pub mod Tests
