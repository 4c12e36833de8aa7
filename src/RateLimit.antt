-- ===== src/RateLimit.antt =====
-- shared/src/rate-limit/rateLimiterService.js, the sliding window.
pub mod Window
pub mod Bound
mod Tests
