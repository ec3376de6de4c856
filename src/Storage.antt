-- ===== src/Storage.antt =====
-- The package downloader_bot/storage.
pub mod Disposition
pub mod Azure
pub mod Base
pub mod Backend
pub mod Contract
pub mod RoundTrip
pub mod Header
pub mod Calls
