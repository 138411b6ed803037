-- ===== src/Seeds.antt =====
-- pool-coordinator/app/db/seeds.py: the administrator, the settings and the prices that a fresh pool
-- starts with (`Defaults`), and what they come to (`Seeded`).
pub mod Defaults
pub mod Seeded
pub mod Prices
pub mod Tests
