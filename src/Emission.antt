-- ===== src/Emission.antt =====
-- pool-coordinator/app/services/emission.py, and the emission loop of scheduler.py.
pub mod Uptime
pub mod Payouts
pub mod Run
pub mod Paid
pub mod Tests
