-- ===== src/Download/ZipStream/Pipeline.antt =====
-- `_members`, `_peek_or_raise_empty`, `build_zip_stream` and `_stream_response` of
-- download/zip_stream.py. The generators are drained: `members` walks all of the history. The zip
-- encoding is the library stream-zip's.
use discord_downloader_bot.Prelude.{ℕ, String, Bool, Option, none, some, List, [], ◌∷◌}
use discord_downloader_bot.Datetime.{Datetime}
use discord_downloader_bot.Data.{Attachment, Message, Channel}
use discord_downloader_bot.Download.ZipStream.Progress.{
  resolve_snowflake_bounds, Bounds, no_bounds, TimeSnowflake,
}
use discord_downloader_bot.Download.ZipStream.Walk.{Member, Walk, Reporter, start, walk_messages}
use discord_downloader_bot.World.{
  Exn, no_matching_attachments, attachment_stream_error, client_error, Exec, await, pure, raise,
  catch, attempt, ◌>>=◌, ◌>>◌, channel_history, http_body, http_release, monotonic, Result, ok,
  raised,
}

-- What the walk does when the history ends, or a request for more of it raises.
abbrev pub at_end : Option Exn → Walk → Exec Walk
at_end none w = pure w
at_end (some e) w = raise e

-- The bounds are looked up only for progress reports.
abbrev pub bounds_for :
    TimeSnowflake → Channel → Option Datetime → Option Datetime → Option Reporter → Exec Bounds
bounds_for snowflake channel before after none = pure no_bounds
bounds_for snowflake channel before after (some r) =
    resolve_snowflake_bounds snowflake channel before after

-- `_members`, drained
unfoldable pub members :
    TimeSnowflake
    → Channel
    → Option (Attachment → Message → Bool)
    → Option Datetime
    → Option Datetime
    → Option Reporter
    → Exec (List Member)
members snowflake channel matches before after on_progress = do
  bounds ← bounds_for snowflake channel before after on_progress
  last_emit ← await monotonic
  feed ← await (channel_history channel.id before after)
  w ← walk_messages matches on_progress bounds feed.messages (start last_emit)
  w' ← at_end feed.failure w
  pure w'.members

-- `_peek_or_raise_empty`
unfoldable pub peek_or_raise_empty : List Member → Exec (List Member)
peek_or_raise_empty [] = raise no_matching_attachments
peek_or_raise_empty (m ∷ ms) = pure (m ∷ ms)

-- `build_zip_stream`, up to the encoding of the members
unfoldable pub build_zip_stream :
    TimeSnowflake
    → Channel
    → Option (Attachment → Message → Bool)
    → Option Datetime
    → Option Datetime
    → Option Reporter
    → Exec (List Member)
build_zip_stream snowflake channel matches before after on_progress = do
  ms ← members snowflake channel matches before after on_progress
  peek_or_raise_empty ms

-- `except aiohttp.ClientError`
abbrev pub mid_stream : Exn → Exec (List String)
mid_stream client_error = raise attachment_stream_error
mid_stream e = raise e

-- `finally: resp.release()`
abbrev pub releasing : String → Result (List String) → Exec (List String)
releasing url (ok chunks) = do await (http_release url); pure chunks
releasing url (raised e) = do await (http_release url); raise e

-- `_stream_response`, drained
unfoldable pub stream_response : String → ℕ → Exec (List String)
stream_response url chunk_size = do
  r ← attempt (catch (await (http_body url chunk_size)) mid_stream)
  releasing url r
