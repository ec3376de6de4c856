-- ===== src/Db/GuildSettings.antt =====
-- db/guild_settings.py: the repository of the guilds' settings. A row holds a value of each column.
use discord_downloader_bot.Prelude.{ℕ, Option, none, some}
use discord_downloader_bot.Int.{pos}
use discord_downloader_bot.Data.{GuildSettings}
use discord_downloader_bot.World.{Exec, await, pure, ◌>>=◌, fetch_row, upsert_row}

-- `GuildSettings(guild_id=…)` with the defaults of the dataclass
abbrev pub default_settings : ℕ → GuildSettings
default_settings guild_id = record {
  guild_id = guild_id;
  delivery_mode = "dm";
  results_channel_id = none;
  allowed_media_types = none;
  max_archive_size_bytes = none;
  retention_hours = pos 24;
  created_at = none;
  updated_at = none;
}

abbrev pub from_row : ℕ → Option GuildSettings → GuildSettings
from_row guild_id none = default_settings guild_id
from_row guild_id (some row) = row

-- `GuildSettingsRepo.get`
unfoldable pub get : ℕ → Exec GuildSettings
get guild_id = do row ← await (fetch_row guild_id); pure (from_row guild_id row)

-- `GuildSettingsRepo.upsert`
unfoldable pub upsert : GuildSettings → Exec (Unit {0})
upsert settings = await (upsert_row settings)
