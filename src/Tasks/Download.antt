-- ===== src/Tasks/Download.antt =====
-- tasks/download.py: `download_channel_media`.
pub mod Filename
pub mod Upload
pub mod Pipeline
pub mod Calls
pub mod Retry
pub mod Order
pub mod Cleanup
pub mod Skips
pub mod Again
pub mod Once
