-- ===== src/Tasks/Download/Upload.antt =====
-- Phase 1 of `download_channel_media` in tasks/download.py: upload the archive once, and remember its
-- URL.
use Prim.Native.String.{◌++◌}
use discord_downloader_bot.Prelude.{
  ℕ, String, Bool, true, false, Option, none, some, List, if◌then◌else◌,
}
use discord_downloader_bot.Int.{ℤ, times}
use discord_downloader_bot.Config.{Settings}
use discord_downloader_bot.Keys.{decimal}
use discord_downloader_bot.Unicode.{Unicode, codes}
use discord_downloader_bot.Datetime.{from_timestamp}
use discord_downloader_bot.Data.{GuildSettings, Channel, TaskArgs, started, phase_only, iso}
use discord_downloader_bot.World.{
  Exn, type_error, no_matching_attachments, upload_error, Result, ok, raised, Exec, await, pure,
  raise, lift, catch, attempt, ◌>>=◌, ◌>>◌, set_progress, fetch_channel, datetime_now, date_today,
}
use discord_downloader_bot.Download.Filters.Resolve.{ResolvedFilters, resolve}
use discord_downloader_bot.Download.ZipStream.Progress.{Snapshot, TimeSnowflake}
use discord_downloader_bot.Download.ZipStream.Walk.{Member}
use discord_downloader_bot.Download.ZipStream.Pipeline.{build_zip_stream}
use discord_downloader_bot.Download.Idempotency.{get_cached_archive_url, cache_archive_url}
use discord_downloader_bot.Storage.Azure.{ContainerClient, upload_and_sign, delete_blob}
use discord_downloader_bot.Tasks.Download.Filename.{display_filename}

-- What the task is given by its process: the configuration, the interpreter's tables and the function
-- of discord.py from times to snowflakes.
pub record Deps : Type 0 where
  pub settings : Settings
  pub con_client : ContainerClient
  pub unicode : Unicode
  pub snowflake : TimeSnowflake

-- `_EMPTY_SENTINEL`
abbrev pub empty_sentinel : String
empty_sentinel = ""

-- The default `progress_throttle_seconds=5.0` of `build_zip_stream`.
abbrev pub default_throttle : ℕ
default_throttle = 5000000

-- The closure `_on_progress`.
unfoldable pub report : Snapshot → Exec (Unit {0})
report s = do
  now ← await datetime_now
  await (
      set_progress started (record {
        phase = some "stream";
        attachments_done = some s.attachments_done;
        bytes_streamed = some s.bytes_streamed;
        history_fraction = s.history_fraction;
        updated_at = some (iso now);
      }))

unfoldable pub blob_key : ℕ → String → String
blob_key channel_id task_id = "channel-" ++ (decimal channel_id ++ ("-" ++ (task_id ++ ".zip")))

-- `timedelta(hours=retention_hours)`, in seconds
abbrev pub ttl_seconds : GuildSettings → ℤ
ttl_seconds settings = times settings.retention_hours 3600

-- The stream of the archive under the resolved filters.
unfoldable pub archive_stream : Deps → Channel → ResolvedFilters → Exec (List Member)
archive_stream deps channel resolved =
    build_zip_stream deps.snowflake channel (some resolved.matches) resolved.before resolved.after
      (some (record { on_progress = report; throttle = default_throttle }))

abbrev pub logged : Exn → Exec (Unit {0})
logged upload_error = pure tt
logged e = raise e

-- The best-effort deletion in the `finally` block.
unfoldable pub cleanup : String → Exec (Unit {0})
cleanup key = catch (delete_blob key) logged

-- `except zip_stream.NoMatchingAttachments`: the sentinel, and `empty_channel`.
abbrev pub on_empty : Exn → Exec (String × Bool)
on_empty no_matching_attachments = pure (empty_sentinel, true)
on_empty e = raise e

-- `finally: if not upload_succeeded or empty_channel`. What the cleanup raises takes the place of the
-- exception on its way.
abbrev pub finish_upload : String → Result (String × Bool) → Exec String
finish_upload key (ok (url, empty_channel)) =
    if empty_channel then cleanup key >> pure url else pure url
finish_upload key (raised e) = cleanup key >> raise e

-- The two `try` statements around `storage.upload_and_sign`.
unfoldable pub guarded_upload : String → Exec String → Exec String
guarded_upload key upload = do
  r ← attempt (catch (do url ← upload; pure (url, false)) on_empty)
  finish_upload key r

-- From the messageable channel to the cached URL.
unfoldable pub upload_steps : Deps → String → TaskArgs → GuildSettings → Channel → Exec String
upload_steps deps task_id args settings channel = do
  let key = blob_key args.channel_id task_id
  await (set_progress started (phase_only "stream"))
  now ← await datetime_now
  resolved ← lift (resolve deps.unicode args.filters settings (from_timestamp now))
  today ← await date_today
  url ← guarded_upload key (
      upload_and_sign deps.settings deps.con_client key (archive_stream deps channel resolved)
        (times (ttl_seconds settings) 1000000) (some (display_filename channel (codes today))))
  cache_archive_url task_id url (ttl_seconds settings)
  pure url

-- The branch in which no URL is cached.
unfoldable pub fresh_upload : Deps → String → TaskArgs → GuildSettings → Exec String
fresh_upload deps task_id args settings = do
  channel ← await (fetch_channel args.channel_id)
  if channel.messageable then upload_steps deps task_id args settings channel else raise type_error

abbrev pub or_upload : Exec String → Option String → Exec String
or_upload upload none = upload
or_upload upload (some url) = pure url

-- Phase 1: the URL, or the sentinel of an empty channel.
unfoldable pub upload_phase : Deps → String → TaskArgs → GuildSettings → Exec String
upload_phase deps task_id args settings = do
  cached ← get_cached_archive_url task_id
  or_upload (fresh_upload deps task_id args settings) cached
