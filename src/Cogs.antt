-- ===== src/Cogs.antt =====
-- The package downloader_bot/cogs: the commands.
pub mod Context
pub mod Answers
pub mod Download
pub mod Jobs
pub mod Setup
pub mod General
