-- ===== src/Tasks/Download/Again.antt =====
-- The runs that follow one that delivered.
use discord_downloader_bot.Prelude.{ℕ, zero, suc, String, Bool, true, false, ◌&&◌, ◌≡◌, refl, any}
use discord_downloader_bot.Data.{GuildSettings, TaskArgs}
use discord_downloader_bot.World.{
  ok, Event, Env, Exec, History, redis_exists, attempt, pure, await, ◌>>◌, after,
}
use discord_downloader_bot.World.Trace.{
  Extends, Makes-mono, Makes-await, Makes-pure, Makes-set_progress,
}
use discord_downloader_bot.World.Since.{
  MakesSince, Makes-MakesSince, MakesSince-attempt, MakesSince-bind, MakesSince-bind_answer,
}
use discord_downloader_bot.Keys.{delivered_key}
use discord_downloader_bot.Download.Idempotency.{is_delivered}
use discord_downloader_bot.Tasks.Download.Upload.{Deps}
use discord_downloader_bot.Tasks.Download.Calls.{upload_phase-Makes}
use discord_downloader_bot.Tasks.Download.Order.{is_mark}
use discord_downloader_bot.Tasks.Download.Skips.{
  sends_nothing, phase_1_sends_nothing, finish_sends_nothing, settings-Makes_quiet,
  finish-Makes_any,
}
use discord_downloader_bot.Tasks.Download.Pipeline.{
  DownloadResult, unless_delivered, task_settings, deliver_phase, download_channel_media,
}

-- The write of the delivered key that returned.
abbrev pub marks : String → Event → Bool
marks t e = e.returned && is_mark t e.call

-- Redis keeps the key: once a write of it has returned, Redis never says that it is not there.
abbrev pub KeepsMark : String → Env → Type 0
KeepsMark t env =
    (h : History) (b : Bool)
    → any (marks t) h ≡ true
    → env h (redis_exists (delivered_key t)) ≡ ok b
    → b ≡ true

-- A number of runs, one after the other, whatever became of each: what Taskiq's retries amount to.
pub retries : ℕ → Exec DownloadResult → Exec (Unit {0})
retries zero run = pure tt
retries (suc n) run = attempt run >> retries n run

module _ (t : String) (env : Env) (args : TaskArgs) (keeps : KeepsMark t env) (deps : Deps) where
  run-MakesSince : MakesSince (marks t) sends_nothing env (download_channel_media deps t args)
  unfolding download_channel_media task_settings deliver_phase is_delivered await
  run-MakesSince = MakesSince-bind _ _ (Makes-MakesSince _ (Makes-set_progress _ _ refl)) λ _.
      MakesSince-bind _ _
        (Makes-MakesSince _ (settings-Makes_quiet t env args args.guild_id args.dm_me))
        λ settings.
          MakesSince-bind _ _
            (Makes-MakesSince _ (
              Makes-mono sends_nothing _ (phase_1_sends_nothing t)
                (upload_phase-Makes env deps t args settings)))
            λ url.
              MakesSince-bind _ _
                (MakesSince-bind_answer {A = Bool} _ _
                  (Makes-MakesSince _ (Makes-await (redis_exists _) refl))
                  λ d h seen e. when url settings d (keeps h d seen e))
                λ _.
                  Makes-MakesSince _
                    (finish-Makes_any t env args sends_nothing url settings finish_sends_nothing)
    where
      when :
          (url : String) (settings : GuildSettings) (d : Bool)
          → d ≡ true
          → MakesSince (marks t) sends_nothing env (unless_delivered t url args settings d)
      when url settings true e = Makes-MakesSince _ (Makes-pure tt)
      when url settings false e = cc

  retries-MakesSince :
      (n : ℕ)
      → MakesSince (marks t) sends_nothing env (retries n (download_channel_media deps t args))
  unfolding retries
  retries-MakesSince zero = Makes-MakesSince _ (Makes-pure tt)
  retries-MakesSince (suc n) =
      MakesSince-bind _ _ (MakesSince-attempt _ run-MakesSince) λ _. retries-MakesSince n

  -- Where Redis keeps the delivered key once a write of it has returned, any number of later runs of
  -- the task, however each ends, sends nothing more.
  pub retries_send_nothing :
      (n : ℕ) (h : History)
      → any (marks t) h ≡ true
      → Extends sends_nothing h (after (retries n (download_channel_media deps t args) env h))
  retries_send_nothing n h seen = (retries-MakesSince n).from h seen
