-- ===== src/Download/ZipStream/Progress.antt =====
-- `ProgressSnapshot`, `_compute_history_fraction` and `_resolve_snowflake_bounds` of
-- download/zip_stream.py.
use discord_downloader_bot.Prelude.{ℕ, Bool, true, false, Option, none, some, ltb, if◌then◌else◌}
use discord_downloader_bot.Int.{ℤ, pos, leb_ℤ, monus}
use discord_downloader_bot.Datetime.{Datetime}
use discord_downloader_bot.Data.{Channel, Fraction}
use discord_downloader_bot.World.{
  Exn, is_exception, Exec, await, pure, raise, catch, ◌>>=◌, oldest_message,
}

pub record Snapshot : Type 0 where
  pub attachments_done : ℕ
  pub bytes_streamed : ℕ
  pub history_fraction : Option Fraction

-- `discord.utils.time_snowflake(t, high=…)` of the library discord.py; a time before 2015 has a
-- negative one.
abbrev pub TimeSnowflake : Type 0
TimeSnowflake = Datetime → Bool → ℤ

abbrev pub whole : Fraction
whole = record { num = 1; den = 1 }

-- `max(0.0, min(1.0, (high - current_id) / (high - low)))`, the quotient kept exact. `monus` stops at
-- 0 where the numerator would be negative.
unfoldable pub compute_history_fraction : ℤ → ℤ → ℤ → Fraction
compute_history_fraction current_id low high =
    if leb_ℤ high low
    then whole
    else if ltb (monus high low) (monus high current_id)
    then whole
    else record { num = monus high current_id; den = monus high low }

pub record Bounds : Type 0 where
  pub low : Option ℤ
  pub high : Option ℤ

abbrev pub no_bounds : Bounds
no_bounds = record { low = none; high = none }

abbrev pub to_ℤ : Option ℕ → Option ℤ
to_ℤ none = none
to_ℤ (some n) = some (pos n)

abbrev pub high_bound : TimeSnowflake → Channel → Option Datetime → Option ℤ
high_bound snowflake channel none = to_ℤ channel.last_message_id
high_bound snowflake channel (some before) = some (snowflake before true)

-- `except Exception`
abbrev pub no_oldest : Exn → Exec (Option ℕ)
no_oldest e = if is_exception e then pure none else raise e

abbrev pub low_bound : TimeSnowflake → Channel → Option Datetime → Exec (Option ℤ)
low_bound snowflake channel (some after) = pure (some (snowflake after false))
low_bound snowflake channel none = do
  oldest ← catch (await (oldest_message channel.id)) no_oldest
  pure (to_ℤ oldest)

unfoldable pub resolve_snowflake_bounds :
    TimeSnowflake → Channel → Option Datetime → Option Datetime → Exec Bounds
resolve_snowflake_bounds snowflake channel before after = do
  low ← low_bound snowflake channel after
  pure (record { low = low; high = high_bound snowflake channel before })
