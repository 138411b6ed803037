-- ===== src/System.antt =====
-- The coordinator as one system: the requests and the loops that change its tables, in any order.
pub mod Steps
pub mod Quiet
pub mod Minted
pub mod Appended
pub mod Kept
pub mod Reachable
pub mod Tests
