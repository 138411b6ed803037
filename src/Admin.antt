-- ===== src/Admin.antt =====
-- pool-coordinator/app/api/admin.py: what an administrator, who is a worker owner, sees and does.
pub mod Actions
pub mod Workers
pub mod Leaderboard
pub mod Grows
pub mod Tests
