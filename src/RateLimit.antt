-- ===== src/RateLimit.antt =====
-- The sliding-window rate limiters: `SlidingWindowRateLimiter` of pool-coordinator/app/core/rate_limit.py
-- (`Limiter`), and `RateLimiter` of pool-gateway/app/main.py (`Gateway`). `Window` proves what a
-- history of calls may admit.
pub mod Limiter
pub mod Gateway
pub mod Bucket
pub mod Invariant
pub mod Window
mod Tests
