-- ===== src/Data.antt =====
-- The values that the parts of the bot exchange: embeds (embeds.py), guild settings
-- (db/guild_settings.py), filters (download/filters.py), job records (download/jobs.py) and the
-- progress of a task (tasks/download.py).
use discord_downloader_bot.Datetime.{Datetime}
use discord_downloader_bot.Int.{ℤ}
use discord_downloader_bot.Prelude.{ℕ, String, Bool, Option, none, some, List}

-- A formatted text before it is rendered: the literal parts and the values between them.
pub data Piece : Type 0 where
  str : String → Piece
  int : ℕ → Piece
  -- `discord.utils.format_dt(t, 'R')` of an instant in microseconds
  relative_time : ℕ → Piece
  -- `str.capitalize` of a text
  capitalized : String → Piece

pub data Colour : Type 0 where
  green red blurple : Colour

pub record Field : Type 0 where
  pub name : String
  pub value : List Piece
  pub inline : Bool

pub record Embed : Type 0 where
  pub title : String
  pub description : Option (List Piece)
  pub colour : Colour
  pub fields : List Field
  pub footer : Option (List Piece)

pub record GuildSettings : Type 0 where
  pub guild_id : ℕ
  pub delivery_mode : String
  pub results_channel_id : Option ℕ
  pub allowed_media_types : Option (List String)
  pub max_archive_size_bytes : Option ℕ
  -- a column INTEGER of 4 bytes, so that `timedelta` takes it
  pub retention_hours : ℤ
  pub created_at : Option ℕ
  pub updated_at : Option ℕ

-- An absent key and a key with `None` are the same to every reader.
pub record DownloadFilters : Type 0 where
  pub category : Option String
  pub from_user_id : Option ℕ
  pub before : Option String
  pub after : Option String
  pub during : Option String

pub record JobMeta : Type 0 where
  pub owner_user_id : ℕ
  pub guild_id : Option ℕ
  pub channel_id : ℕ
  pub enqueued_at : ℕ
  pub enqueue_consumed_token : Bool

-- A position in the history: `num / den` of the walk is done.
pub record Fraction : Type 0 where
  pub num : ℕ
  pub den : ℕ

-- The text under `updated_at`: one that `datetime.fromisoformat` reads, as an instant in
-- microseconds, or one that it refuses.
pub data Stamp : Type 0 where
  iso : ℕ → Stamp
  unreadable : String → Stamp

pub data TaskState : Type 0 where
  started success : TaskState

-- `none` is a key that is not in the dictionary.
pub record ProgressMeta : Type 0 where
  pub phase : Option String
  pub attachments_done : Option ℕ
  pub bytes_streamed : Option ℕ
  pub history_fraction : Option Fraction
  pub updated_at : Option Stamp

abbrev pub phase_only : String → ProgressMeta
phase_only p = record {
  phase = some p;
  attachments_done = none;
  bytes_streamed = none;
  history_fraction = none;
  updated_at = none;
}

abbrev pub empty_meta : ProgressMeta
empty_meta = record {
  phase = none;
  attachments_done = none;
  bytes_streamed = none;
  history_fraction = none;
  updated_at = none;
}

pub record Channel : Type 0 where
  pub id : ℕ
  pub name : Option String
  pub messageable : Bool
  pub last_message_id : Option ℕ

-- The arguments of `download_channel_media.kiq`.
pub record TaskArgs : Type 0 where
  pub channel_id : ℕ
  pub user_id : ℕ
  pub guild_id : Option ℕ
  pub dm_me : Bool
  pub filters : Option DownloadFilters

pub record Attachment : Type 0 where
  pub url : String
  pub filename : String
  pub size : Option ℕ
  pub content_type : Option String

pub record Message : Type 0 where
  pub id : ℕ
  pub created_at : Datetime
  pub author_id : ℕ
  pub attachments : List Attachment

-- What `channel.history` yields before it ends (`none`) or a request of it raises.
pub record Feed (E : Type 0) : Type 0 where
  pub messages : List Message
  pub failure : Option E
