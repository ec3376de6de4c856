-- ===== src/Cogs/Jobs/Status.antt =====
-- `Jobs.status` of cogs/jobs.py.
use discord_downloader_bot.Prelude.{
  ℕ, ◌-◌, String, true, Option, none, some, ltb, get_or, if◌then◌else◌,
}
use discord_downloader_bot.Data.{JobMeta, ProgressMeta, empty_meta, Stamp, iso, unreadable}
use discord_downloader_bot.World.{
  Exec, await, pure, ◌>>=◌, ◌>>◌, defer, context_send, is_cancelled, is_ready, get_progress,
  datetime_now,
}
use discord_downloader_bot.Embeds
use discord_downloader_bot.Embeds.{Progress, Age, behind, ahead}
use discord_downloader_bot.Cogs.Context.{Context}
use discord_downloader_bot.Cogs.Jobs.Access.{resolve_job}

abbrev pub no_progress : Progress
no_progress = record {
  attachments_done = none;
  bytes_streamed = none;
  history_fraction = none;
  heartbeat_age = none;
}

abbrev pub show : String → JobMeta → String → Progress → Exec (Unit {0})
show task_id meta phase p =
    await (context_send (Embeds.job_status task_id phase meta.owner_user_id p) true)

unfoldable pub age_of : ℕ → ℕ → Age
age_of now ts = if ltb now ts then ahead (ts - now) else behind (now - ts)

-- `datetime.fromisoformat`; a `ValueError` leaves the age out.
abbrev pub heartbeat : Option Stamp → Exec (Option Age)
heartbeat none = pure none
heartbeat (some (iso ts)) = do now ← await datetime_now; pure (some (age_of now ts))
heartbeat (some (unreadable s)) = pure none

unfoldable pub show_progress : String → JobMeta → ProgressMeta → Exec (Unit {0})
show_progress task_id meta p = do
  age ← heartbeat p.updated_at
  show task_id meta (get_or p.phase "queued") (record {
    attachments_done = p.attachments_done;
    bytes_streamed = p.bytes_streamed;
    history_fraction = p.history_fraction;
    heartbeat_age = age;
  })

-- `progress is None` is a task that still waits; `progress.meta or {}`.
abbrev pub on_progress : String → JobMeta → Option (Option ProgressMeta) → Exec (Unit {0})
on_progress task_id meta none = show task_id meta "queued" no_progress
on_progress task_id meta (some none) = show_progress task_id meta empty_meta
on_progress task_id meta (some (some p)) = show_progress task_id meta p

-- Cancelled outranks delivered.
unfoldable pub show_job : String → JobMeta → Exec (Unit {0})
show_job task_id meta = do
  cancelled ← await (is_cancelled task_id)
  if cancelled then show task_id meta "cancelled" no_progress else do
    ready ← await (is_ready task_id)
    if ready
        then show task_id meta "done" no_progress
        else do progress ← await (get_progress task_id); on_progress task_id meta progress

abbrev pub on_resolved : Option String → Option (String × JobMeta) → Exec (Unit {0})
on_resolved task_id none = await (context_send (Embeds.job_not_found task_id) true)
on_resolved task_id (some (target_id, meta)) = show_job target_id meta

unfoldable pub status : Context → Option String → Exec (Unit {0})
status c task_id = do
  await (defer true)
  resolved ← resolve_job c task_id
  on_resolved task_id resolved
