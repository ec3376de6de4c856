-- ===== src/Tests/Values.antt =====
-- Concrete inputs of the examples: ASCII tables, a configuration, and services that all answer.
use discord_downloader_bot.Prelude.{
  ℕ, ◌+◌, ◌-◌, String, true, false, ◌&&◌, Option, none, some, List, [], ◌∷◌, leb, text_eq, get_or,
  if◌then◌else◌, arith,
}
use discord_downloader_bot.Int.{pos}
use discord_downloader_bot.Unicode.{Unicode, is_space}
use discord_downloader_bot.Config.{Settings, defaults}
use discord_downloader_bot.Storage.Azure.{ContainerClient, FromConnectionString}
use discord_downloader_bot.Data.{TaskArgs, Channel, Attachment, Message, Feed}
use discord_downloader_bot.Datetime.{from_timestamp}
use discord_downloader_bot.World.{
  Exn, ok, Call, Resp, Env, set_progress, get_progress, is_ready, is_cancelled, cancel, kiq,
  redis_get, redis_exists, redis_get_meta, redis_hmget, redis_watch, redis_set, redis_latest,
  redis_delete, redis_execute, redis_unwatch, fetch_row, upsert_row, fetch_channel, fetch_user,
  is_bot_owner, channel_send, user_send, oldest_message, channel_history, defer, context_send,
  context_send_text, sync_global, copy_global_to, sync_guild, http_get, http_body, http_release,
  upload_blob, generate_blob_sas, delete_blob, time, datetime_now, monotonic, date_today, scan_iter,
  aclose, acquires, releases, apply_schema, start_status_task, load_extension, sleep, random_choice,
  change_presence, process_commands, wait_closed,
}
use discord_downloader_bot.Tasks.Download.Upload.{Deps}

abbrev pub ascii_digit_value : ℕ → Option ℕ
ascii_digit_value c = if leb 48 c && leb c 57 then some (c - 48) else none

abbrev pub ascii_lower : ℕ → List ℕ
ascii_lower c = if leb 65 c && leb c 90 then (c + 32) ∷ [] else c ∷ []

abbrev pub ascii : Unicode
unfolding is_space
ascii = record {
  digit_value = ascii_digit_value;
  lower = ascii_lower;
  digit_lt = λ c d e. ground arith;
  ascii_digit = λ d h. ground arith;
  letter_no_digit = λ c h. ground arith;
  space_no_digit = λ c h. ground arith;
}

abbrev pub some_settings : Settings
some_settings =
    defaults "token" "!" "AccountName=a;AccountKey=k" "postgresql://db/bot" "bot" "secret"

abbrev pub some_client : ContainerClient
some_client = record { has_account_key = true; signed_url = λ url token. url }

abbrev pub some_connect : FromConnectionString
some_connect conn_str container options = ok some_client

abbrev pub some_deps : Deps
some_deps = record {
  settings = some_settings;
  con_client = some_client;
  unicode = ascii;
  snowflake = λ t high. pos 1000;
}

abbrev pub some_args : TaskArgs
some_args = record { channel_id = 7; user_id = 9; guild_id = some 5; dm_me = false; filters = none }

abbrev pub some_channel : Channel
some_channel = record { id = 7; name = some "general"; messageable = true; last_message_id = none }

abbrev pub noon : ℕ
noon = 1700000000000000

abbrev pub picture : Attachment
picture = record {
  url = "https://cdn/1";
  filename = "a.png";
  size = some 10;
  content_type = some "image/png";
}

abbrev pub lost_picture : Attachment
lost_picture = record {
  url = "https://cdn/2";
  filename = "b.png";
  size = some 20;
  content_type = some "image/png";
}

abbrev pub some_message : Message
some_message = record {
  id = 42;
  created_at = from_timestamp noon;
  author_id = 9;
  attachments = picture ∷ lost_picture ∷ [];
}

abbrev pub some_feed : Feed Exn
some_feed = record { messages = some_message ∷ []; failure = none }

-- The status of each URL: one attachment is gone.
abbrev pub status_of : String → Option ℕ
status_of url = if text_eq url "https://cdn/1" then some 200 else some 404

abbrev pub head : List String → Option String
head [] = none
head (s ∷ l) = some s

-- Services that all answer, the same at any time.
abbrev pub answer_of : (c : Call) → Resp c
answer_of (get_progress _) = none
answer_of (is_ready _) = false
answer_of (is_cancelled _) = false
answer_of (kiq _) = "task"
answer_of (redis_get _) = none
answer_of (redis_exists _) = false
answer_of (redis_get_meta _) = none
answer_of (redis_hmget _) = none
answer_of (redis_latest _) = none
answer_of (scan_iter _) = []
answer_of aclose = tt
answer_of (random_choice l) = get_or (head l) ""
answer_of (acquires _) = tt
answer_of (releases _) = tt
answer_of apply_schema = tt
answer_of (wait_closed _) = tt
answer_of start_status_task = tt
answer_of (load_extension _) = tt
answer_of (sleep _) = tt
answer_of (change_presence _) = tt
answer_of (process_commands _) = tt
answer_of (fetch_row _) = none
answer_of (fetch_channel _) = some_channel
answer_of (is_bot_owner _) = false
answer_of (oldest_message _) = none
answer_of (channel_history _ _ _) = some_feed
answer_of (http_get url) = get_or (status_of url) 404
answer_of (http_body _ _) = []
answer_of (upload_blob _ _) = "https://blob/x"
answer_of (generate_blob_sas _ _ _ _) = "sas"
answer_of time = noon
answer_of datetime_now = noon
answer_of monotonic = noon
answer_of date_today = "2023-11-14"
answer_of (set_progress _ _) = tt
answer_of (cancel _) = tt
answer_of (redis_watch _) = tt
answer_of (redis_set _ _ _) = tt
answer_of (redis_delete _) = tt
answer_of (redis_execute _) = tt
answer_of redis_unwatch = tt
answer_of (upsert_row _) = tt
answer_of (fetch_user _) = tt
answer_of (channel_send _ _) = tt
answer_of (user_send _ _) = tt
answer_of (defer _) = tt
answer_of (context_send _ _) = tt
answer_of (context_send_text _) = tt
answer_of sync_global = tt
answer_of (copy_global_to _) = tt
answer_of (sync_guild _) = tt
answer_of (http_release _) = tt
answer_of (delete_blob _) = tt

abbrev pub all_well : Env
all_well h c = ok (answer_of c)

-- Redis holds a URL under every key.
abbrev pub remembers : Env
remembers h (redis_get k) = ok (some "https://blob/old")
remembers h c = all_well h c
