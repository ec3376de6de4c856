-- ===== src/Cogs/Answers/Commands.antt =====
-- Each command answers the user once.
use discord_downloader_bot.Prelude.{String, Option}
use discord_downloader_bot.Data.{GuildSettings}
use discord_downloader_bot.World.{Result, ok, raised, Exec, ◌>>◌}
use discord_downloader_bot.Cogs.Context.{Guild, Context, Bot}
use discord_downloader_bot.Cogs.Download.Command.{Options, download}
use discord_downloader_bot.Cogs.Setup.{Verb, is_guild_owner, cog_command_error, body}
use discord_downloader_bot.Cogs.General.{invite, sync}
use discord_downloader_bot.Cogs.Jobs.Status.{status}
use discord_downloader_bot.Cogs.Jobs.Cancel.{cancel}

-- A subcommand behind the check of its group, as discord.py runs a prefix command: a refusal goes to the
-- cog's handler. A slash command is run without that check.
abbrev pub prefixed : Verb → Result Guild → Exec (Unit {0})
prefixed v (ok g) = body v g
prefixed v (raised e) = cog_command_error e

-- The commands of the bot.
pub data Command : Type 0 where
  download_command : Options → Command
  status_command cancel_command : Option String → Command
  setup_command : Verb → Command
  setup_slash_command : Guild → Verb → Command
  invite_command : Command
  sync_command : String → Command

abbrev pub perform : Bot → Context → Command → Exec (Unit {0})
perform bot c (download_command o) = download bot c o
perform bot c (status_command task_id) = status c task_id
perform bot c (cancel_command task_id) = cancel bot c task_id
perform bot c (setup_command v) = prefixed v (is_guild_owner c)
perform bot c (setup_slash_command g v) = body v g
perform bot c invite_command = invite bot.settings c
perform bot c (sync_command scope) = sync c scope
