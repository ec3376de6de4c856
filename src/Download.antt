-- ===== src/Download.antt =====
-- The package downloader_bot/download.
pub mod Idempotency
pub mod Jobs
pub mod Deliver
pub mod RateLimit
pub mod Filters
pub mod ZipStream
pub mod DiscordRest
