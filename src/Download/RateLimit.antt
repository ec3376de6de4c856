-- ===== src/Download/RateLimit.antt =====
-- download/ratelimit.py: a token bucket for each guild, kept in Redis.
pub mod Calls
pub mod Bucket
pub mod Client
pub mod Bounds
pub mod Rate
pub mod Race
pub mod Returns
