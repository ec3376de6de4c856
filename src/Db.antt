-- ===== src/Db.antt =====
-- The package downloader_bot/db.
pub mod GuildSettings
pub mod Pool
