-- ===== src/Lib.antt =====
-- A verification library for the Discord bot that archives the attachments of a channel.
--
-- The bot process takes commands (downloader_bot/cogs), the worker process runs the task
-- `download_channel_media` (downloader_bot/tasks/download.py): it walks the history of a channel,
-- streams the matching attachments into a zip archive in Azure, and sends a link. Redis keeps the rate
-- limit, the index of jobs and what a retry must not do again; Postgres keeps the settings of guilds.
--
-- How the code is read:
-- - World.antt: a coroutine is a function `Exec` from an environment and the history of calls so far to
--   its result and the longer history. Each awaited call of a service is a constructor of `Call`, and the
--   environment answers it from the whole history, or raises. Services, packages and clocks are never
--   defined: theorems hold for every environment, or name what they rely on. World/Trace.antt has the
--   rules for the calls that a coroutine makes, World/Since.antt for those after an event,
--   World/Count.antt for their number, World/Steps.antt for runs step by step.
-- - Data.antt, Config.antt, Unicode.antt, Datetime.antt, Int.antt, Raise.antt: the shared values, the
--   settings, the interpreter's tables (a parameter with its laws), dates, integers, errors as values.
-- - Keys.antt: the Redis keys of download/jobs.py, download/idempotency.py and download/ratelimit.py.
-- - Download/RateLimit: download/ratelimit.py. Bucket.antt has the arithmetic (time in microseconds,
--   tokens in units of which 3600 million make one: exact numbers in place of the code's floats, whose
--   rounding is not modelled and on which no theorem about the wait is stated),
--   Client.antt the loops `acquire` and `refund`. A loop has a bound on its rounds, `tries` of the bot;
--   `out_of_fuel` is raised when it is used up and no theorem reads it as an answer.
-- - Download/Filters: download/filters.py (Duration, Mime, Period, Resolve).
-- - Download/ZipStream: download/zip_stream.py (Progress, Walk, Pipeline). The history of a channel
--   is a list of messages, in the order in which discord.py gives them, and the exception that may
--   cut it. The generator is read as consumed to its end; the zip encoding is a package.
-- - Download/Idempotency.antt, Download/Jobs.antt, Download/Deliver.antt: the files of the same names.
--   Download/Jobs/Index.antt says what Redis documents of the commands that keep the index, for the
--   theorems that rely on it.
-- - Storage: storage/base.py (Base), storage/__init__.py (Backend) and storage/azure.py (Azure, and
--   Disposition for the Content-Disposition header; RoundTrip has a decoder of RFC 3986 and UTF-8 to
--   compare with). What the SDK makes of a connection string is a parameter.
-- - Db/GuildSettings.antt: db/guild_settings.py; Db/Pool.antt: db/pool.py.
-- - Tasks/Download: tasks/download.py (Filename, Upload for phase 1, Pipeline for the rest).
-- - Cogs: cogs/download.py, cogs/jobs.py, cogs/setup.py, cogs/general.py and cogs/owner.py.
-- - Worker/Healthcheck.antt: worker/healthcheck.py; its Alive.antt says what Redis documents of keys
--   that expire. Worker/Process.antt: the hooks and the providers of tq.py, with
--   Download/DiscordRest.antt for download/discord_rest.py. World/Held.antt says what is open after a
--   history.
-- - Bot: bot.py and presence.py (Errors, Presence, Lifecycle). The attributes that setup_hook sets are a
--   record, and each step of it ends with that record, also where it raises. A pick of the presence cycle
--   has a bound on its draws, and Bot/Presence/Picks.antt says when it is enough.
-- - Logging.antt: logging_setup.py, with what it uses of the package logging: the table of loggers, the
--   names of the levels, and the rendering of a format.
-- - Rounding.antt: Python's `round` of a quotient.
-- - Embeds.antt: embeds.py, without the timestamp and the author block that all embeds share.
-- - Proofs stand in child modules that are named for what they prove, beside the code's modules.
-- - Tests: concrete inputs, and the theorems at them.
--
-- Not modelled: every log call, the reading of the environment into the settings (pydantic), the
-- construction of the broker and of its scheduler (tq.py), on_command_completion, which only logs,
-- and the dispatch of discord.py: for /setup, the check of the group and the bodies of its
-- subcommands are separate. The task that runs the idle loop of the heartbeat is asyncio's: how it
-- ends once cancelled is an argument of `shutdown`.
pub mod Prelude
pub mod Int
pub mod Unicode
pub mod Datetime
pub mod Data
pub mod World
pub mod Raise
pub mod Config
pub mod Keys
pub mod Embeds
pub mod Db
pub mod Download
pub mod Storage
pub mod Tasks
pub mod Cogs
pub mod Worker
pub mod Bot
pub mod Rounding
pub mod Logging
pub mod Tests
