-- ===== src/Download/Deliver.antt =====
-- download/deliver.py: a direct message, or a post in a channel with a direct message as fallback.
pub mod Calls
pub mod Sent
pub mod Once
use discord_downloader_bot.Prelude.{ℕ, if◌then◌else◌}
use discord_downloader_bot.Data.{Embed}
use discord_downloader_bot.World.{
  Exn, forbidden, not_found, type_error, dm_unavailable, Exec, await, raise, catch, ◌>>=◌, ◌>>◌,
  fetch_user, fetch_channel, user_send, channel_send,
}

-- `except discord.Forbidden`
abbrev pub wrap_forbidden : Exn → Exec (Unit {0})
wrap_forbidden forbidden = raise dm_unavailable
wrap_forbidden e = raise e

unfoldable pub dm_user : ℕ → Embed → Exec (Unit {0})
dm_user user_id embed = do
  await (fetch_user user_id)
  catch (await (user_send user_id embed)) wrap_forbidden

-- `except (discord.NotFound, discord.Forbidden, TypeError)`
abbrev pub fall_back : ℕ → Embed → Exn → Exec (Unit {0})
fall_back user_id embed not_found = dm_user user_id embed
fall_back user_id embed forbidden = dm_user user_id embed
fall_back user_id embed type_error = dm_user user_id embed
fall_back user_id embed e = raise e

abbrev pub send_to_channel : ℕ → Embed → Exec (Unit {0})
send_to_channel channel_id embed = do
  channel ← await (fetch_channel channel_id)
  if channel.messageable then await (channel_send channel_id embed) else raise type_error

unfoldable pub post_to_channel : ℕ → Embed → ℕ → Exec (Unit {0})
post_to_channel channel_id embed fallback_user_id =
    catch (send_to_channel channel_id embed) (fall_back fallback_user_id embed)
