-- ===== src/RateLimiter.antt =====
-- The token-bucket rate limiter, src/rate_limiter/src/lib.rs.
pub mod Bucket
pub mod Limiter
mod Examples
