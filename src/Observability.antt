-- ===== src/Observability.antt =====
-- pool-coordinator/app/core/observability.py, and its copy in pool-gateway/app/main.py: the counts of
-- requests and the page that shows them.
pub mod Metrics
pub mod Rendered
pub mod Middleware
pub mod Tests
