-- ===== src/Cogs/Context.antt =====
-- What a command knows of its call: `Context` of discord.py.
use discord_downloader_bot.Prelude.{ℕ, Bool, Option, none, some}
use discord_downloader_bot.Config.{Settings}
use discord_downloader_bot.Unicode.{Unicode}

pub record Guild : Type 0 where
  pub id : ℕ
  pub owner_id : ℕ
  -- `channel.permissions_for(guild.me).read_message_history`
  pub can_read_history : Bool

pub record Context : Type 0 where
  pub author_id : ℕ
  pub channel_id : ℕ
  pub guild : Option Guild

abbrev pub guild_id : Context → Option ℕ
guild_id c = elim c.guild [ none ↦ none | some g ↦ some g.id ]

-- The configuration, the interpreter's tables, and the bound on the tries of a Redis transaction.
pub record Bot : Type 0 where
  pub settings : Settings
  pub unicode : Unicode
  pub tries : ℕ
