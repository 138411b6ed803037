-- ===== src/Finance.antt =====
-- pool-coordinator/app/services/finance.py: the price of a verified job, its split between the pool
-- and the worker's owner, and the ledger.
pub mod Accounts
pub mod Pricing
pub mod Accounting
pub mod Balance
pub mod Idempotent
pub mod Holdings
pub mod Keys
pub mod Owners
pub mod Refined
pub mod Split
pub mod Tests
