-- ===== src/Tasks/Download/Pipeline.antt =====
-- `download_channel_media` of tasks/download.py: the settings, phase 1 (Upload.antt), phase 2 and the
-- end of the task.
use discord_downloader_bot.Prelude.{
  ℕ, String, Bool, true, false, Option, none, some, text_eq, if◌then◌else◌,
}
use discord_downloader_bot.Data.{GuildSettings, TaskArgs, Embed, started, success, phase_only}
use discord_downloader_bot.World.{
  Exn, is_exception, Exec, await, pure, raise, catch, ◌>>=◌, ◌>>◌, set_progress,
}
use discord_downloader_bot.Embeds
use discord_downloader_bot.Db.GuildSettings.{default_settings, get}
use discord_downloader_bot.Download.Idempotency.{is_delivered, mark_delivered}
use discord_downloader_bot.Download.Jobs.{forget_job}
use discord_downloader_bot.Download.Deliver.{dm_user, post_to_channel}
use discord_downloader_bot.Tasks.Download.Upload.{Deps, empty_sentinel, ttl_seconds, upload_phase}

pub record DownloadResult : Type 0 where
  pub url : String
  pub delivery_mode : String
  -- "delivered" or "empty"
  pub status : String

-- `if guild_id is not None and not dm_me`
abbrev pub settings_for : Option ℕ → Bool → Exec GuildSettings
settings_for none dm_me = pure (default_settings 0)
settings_for (some guild_id) dm_me =
    if dm_me then pure (default_settings guild_id) else get guild_id

unfoldable pub task_settings : TaskArgs → Exec GuildSettings
task_settings args = settings_for args.guild_id args.dm_me

unfoldable pub effective_delivery_mode : TaskArgs → GuildSettings → String
effective_delivery_mode args settings = if args.dm_me then "dm" else settings.delivery_mode

unfoldable pub result_embed : String → ℕ → Embed
result_embed url user_id =
    if text_eq url empty_sentinel
    then Embeds.no_attachments user_id
    else Embeds.media_download url user_id

abbrev pub send_in_mode : Bool → Option ℕ → ℕ → Embed → Exec (Unit {0})
send_in_mode true (some channel_id) user_id embed = post_to_channel channel_id embed user_id
send_in_mode in_channel channel_id user_id embed = dm_user user_id embed

-- The send of phase 2.
unfoldable pub send_result : String → TaskArgs → GuildSettings → Exec (Unit {0})
send_result url args settings =
    send_in_mode (text_eq (effective_delivery_mode args settings) "channel")
      settings.results_channel_id args.user_id (result_embed url args.user_id)

abbrev pub unless_delivered : String → String → TaskArgs → GuildSettings → Bool → Exec (Unit {0})
unless_delivered task_id url args settings true = pure tt
unless_delivered task_id url args settings false = do
  await (set_progress started (phase_only "deliver"))
  send_result url args settings
  mark_delivered task_id (ttl_seconds settings)

-- Phase 2: deliver once.
unfoldable pub deliver_phase : String → String → TaskArgs → GuildSettings → Exec (Unit {0})
deliver_phase task_id url args settings = do
  delivered ← is_delivered task_id
  unless_delivered task_id url args settings delivered

-- `except Exception`
abbrev pub ignored : Exn → Exec (Unit {0})
ignored e = if is_exception e then pure tt else raise e

unfoldable pub finish : String → String → TaskArgs → GuildSettings → Exec DownloadResult
finish task_id url args settings = do
  await (set_progress success (phase_only "done"))
  catch (forget_job task_id args.user_id) ignored
  pure (record {
    url = url;
    delivery_mode = effective_delivery_mode args settings;
    status = if text_eq url empty_sentinel then "empty" else "delivered";
  })

unfoldable pub download_channel_media : Deps → String → TaskArgs → Exec DownloadResult
download_channel_media deps task_id args = do
  await (set_progress started (phase_only "picked_up"))
  settings ← task_settings args
  url ← upload_phase deps task_id args settings
  deliver_phase task_id url args settings
  finish task_id url args settings
