-- ===== src/Gateway.antt =====
-- pool-gateway/app/main.py: how a request of a client becomes a job and waits for its result.
pub mod Jobs
pub mod Waited
pub mod Settings
pub mod Clients
pub mod Limited
pub mod Endpoints
pub mod Sent
pub mod Configured
pub mod Tests
pub mod ClientTests
