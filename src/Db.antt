-- ===== src/Db.antt =====
-- The coordinator's database: `Enums` and `Models` are the rows of pool-coordinator/app/db/models,
-- `Session` the tables and the primary-key operations that the services call on a session.
pub mod Enums
pub mod Models
pub mod Session
