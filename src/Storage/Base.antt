-- ===== src/Storage/Base.antt =====
-- storage/base.py: what a backend promises to those who call it.
use discord_downloader_bot.Prelude.{ℕ, String, Option, List}
use discord_downloader_bot.Int.{ℤ}
use discord_downloader_bot.World.{Exec}
use discord_downloader_bot.Download.ZipStream.Walk.{Member}

-- The operations of `StorageBackend` that the task calls.
pub record StorageBackend : Type 0 where
  pub upload_and_sign : String → Exec (List Member) → ℤ → Option (List ℕ) → Exec String
  pub delete_blob : String → Exec (Unit {0})
