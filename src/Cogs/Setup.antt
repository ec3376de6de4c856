-- ===== src/Cogs/Setup.antt =====
-- cogs/setup.py: `/setup set | show | clear`, for the owner of a server.
pub mod Writes
use discord_downloader_bot.Prelude.{
  ℕ, ◌+◌, String, Bool, true, not, ◌&&◌, ◌||◌, Option, none, some, List, [], ◌∷◌, ◌++◌, text_eq,
  ◌==◌, is_none, if◌then◌else◌,
}
use discord_downloader_bot.Int.{ℤ, pos, negsuc}
use discord_downloader_bot.Data.{Piece, str, int, GuildSettings}
use discord_downloader_bot.World.{
  Exn, not_guild_owner, no_private_message, Result, ok, raised, Exec, await, raise, ◌>>=◌, ◌>>◌,
  context_send,
}
use discord_downloader_bot.Embeds
use discord_downloader_bot.Db.GuildSettings.{default_settings, get, upsert}
use discord_downloader_bot.Cogs.Context.{Guild, Context}

abbrev pub owner_check : Context → Option Guild → Result Guild
owner_check c none = raised no_private_message
owner_check c (some g) = if c.author_id == g.owner_id then ok g else raised not_guild_owner

-- The predicate of `_is_guild_owner`; what passes has a guild.
unfoldable pub is_guild_owner : Context → Result Guild
is_guild_owner c = owner_check c c.guild

-- `delivery_mode not in _VALID_MODES`
abbrev pub valid_mode : String → Bool
valid_mode mode = text_eq mode "dm" || text_eq mode "channel"

abbrev pub mention : Option ℕ → List Piece
mention none = str "_not set_" ∷ []
mention (some id) = str "<#" ∷ int id ∷ str ">" ∷ []

-- A signed number in a format string.
abbrev pub signed : ℤ → List Piece
signed (pos n) = int n ∷ []
signed (negsuc n) = str "-" ∷ int (n + 1) ∷ []

abbrev pub summary : String → Option ℕ → ℤ → List Piece
summary mode channel hours =
    (str "**Mode:** `" ∷ str mode ∷ str "`\n**Channel:** " ∷ [])
    ++ (mention channel ++ (str "\n**Retention:** `" ∷ (signed hours ++ str "h`" ∷ [])))

abbrev pub new_settings : Guild → String → Option ℕ → ℤ → GuildSettings
new_settings g mode channel hours = record (default_settings g.id) {
  delivery_mode = mode;
  results_channel_id = channel;
  retention_hours = hours;
}

-- The body of `setup_set`; the results channel is given by its id.
unfoldable pub setup_set : Guild → String → Option ℕ → ℤ → Exec (Unit {0})
setup_set g mode channel hours =
    if not (valid_mode mode)
    then await (
        context_send
          (Embeds.error "Invalid delivery mode"
            (some (str "`delivery_mode` must be one of: `dm`, `channel`." ∷ [])))
          true)
    else if text_eq mode "channel" && is_none channel
    then await (
        context_send
          (Embeds.error "Missing channel"
            (some (str "`channel` mode requires a `results_channel` argument." ∷ [])))
          true)
    else (do
      upsert (new_settings g mode channel hours)
      await (
          context_send (Embeds.success "Settings updated" (some (summary mode channel hours)))
            true))

unfoldable pub setup_show : Guild → Exec (Unit {0})
setup_show g = do
  s ← get g.id
  await (
      context_send
        (Embeds.info "Delivery settings"
          (some (summary s.delivery_mode s.results_channel_id s.retention_hours)))
        true)

-- The body of the bare group.
unfoldable pub setup_group : String → Exec (Unit {0})
setup_group prefix = await (
    context_send
      (Embeds.info "Setup" (
        some (
          str "Use `"
          ∷ str prefix
          ∷ str "setup set | show | clear` (or the `/setup` slash command)."
          ∷ [])))
      true)

-- `replace(existing, delivery_mode="dm", results_channel_id=None)`
abbrev pub cleared : GuildSettings → GuildSettings
cleared s = record s { delivery_mode = "dm"; results_channel_id = none }

unfoldable pub setup_clear : Guild → Exec (Unit {0})
setup_clear g = do
  existing ← get g.id
  upsert (cleared existing)
  await (
      context_send
        (Embeds.success "Settings cleared"
          (some (str "Delivery mode reset to `dm` and results channel cleared." ∷ [])))
        true)

-- `cog_command_error`
unfoldable pub cog_command_error : Exn → Exec (Unit {0})
cog_command_error not_guild_owner = await (
    context_send
      (Embeds.error "Server owner only"
        (some (str "Only the server owner can configure this bot." ∷ [])))
      true)
cog_command_error no_private_message = await (
    context_send
      (Embeds.error "Server only" (some (str "This command can only be used in a server." ∷ [])))
      true)
cog_command_error e = raise e

pub data Verb : Type 0 where
  set : String → Option ℕ → ℤ → Verb
  show clear : Verb
  -- no subcommand, with the prefix of the bot
  usage : String → Verb

abbrev pub body : Verb → Guild → Exec (Unit {0})
body (set mode channel hours) g = setup_set g mode channel hours
body show g = setup_show g
body clear g = setup_clear g
body (usage prefix) g = setup_group prefix
