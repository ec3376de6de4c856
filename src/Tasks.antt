-- ===== src/Tasks.antt =====
-- The package downloader_bot/tasks.
pub mod Download
