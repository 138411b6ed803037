-- ===== src/Verification.antt =====
-- pool-coordinator/app/services/verification.py: the verdict on a submitted result, and what it does
-- to the workers' reputations and to the table of assignments.
pub mod Floats
pub mod Similarity
pub mod Reputation
pub mod Policy
pub mod Process
pub mod Ban
pub mod Verdict
pub mod Outcome
pub mod Tests
