-- ===== src/Tasks/Download/Skips.antt =====
-- What a run leaves out: the delivery of a task that was delivered, and the guild's settings.
use discord_downloader_bot.Prelude.{
  ℕ, String, Bool, true, false, not, ◌≡◌, refl, sym, ◌∙◌, Option, none, some,
}
use discord_downloader_bot.Data.{GuildSettings, TaskArgs}
use discord_downloader_bot.World.{
  Result, ok, Call, Env, History, channel_send, user_send, fetch_row, set_progress, redis_execute,
  redis_exists, await,
}
use discord_downloader_bot.World.Trace.{
  Makes, Makes-mono, Makes-bind, Makes-bind_answer, Makes-await, Makes-pure, Makes-catch,
  Makes-set_progress, Makes-redis_set, Makes-redis_execute,
}
use discord_downloader_bot.Keys.{delivered_key}
use discord_downloader_bot.Db.GuildSettings.{get}
use discord_downloader_bot.Download.Deliver.Calls.{is_delivery}
use discord_downloader_bot.Download.Deliver.Sent.{is_send}
use discord_downloader_bot.Download.Idempotency.{is_delivered, mark_delivered}
use discord_downloader_bot.Download.Jobs.{forget_job}
use discord_downloader_bot.Tasks.Download.Upload.{Deps}
use discord_downloader_bot.Tasks.Download.Calls.{is_phase_1, upload_phase-Makes}
use discord_downloader_bot.Tasks.Download.Retry.{send_in_mode-Makes, ignored-Makes}
use discord_downloader_bot.Tasks.Download.Pipeline.{
  settings_for, task_settings, send_result, unless_delivered, deliver_phase, finish,
  download_channel_media,
}

-- A call that sends nothing to anyone.
abbrev pub sends_nothing : Call → Bool
sends_nothing c = not (is_send c)

-- A call that does not read the settings of a guild.
abbrev pub reads_no_settings : Call → Bool
reads_no_settings (fetch_row _) = false
reads_no_settings c = true

pub phase_1_sends_nothing : (t : String) (c : Call) → is_phase_1 t c ≡ true → sends_nothing c ≡ true
phase_1_sends_nothing t (channel_send _ _) h = h
phase_1_sends_nothing t (user_send _ _) h = h
phase_1_sends_nothing t c h = refl

phase_1_no_settings : (t : String) (c : Call) → is_phase_1 t c ≡ true → reads_no_settings c ≡ true
phase_1_no_settings t (fetch_row _) h = h
phase_1_no_settings t c h = refl

delivery_no_settings : (c : Call) → is_delivery c ≡ true → reads_no_settings c ≡ true
delivery_no_settings (fetch_row _) h = h
delivery_no_settings c h = refl

-- The calls at the end of a run.
abbrev pub is_finish : Call → Bool
is_finish (set_progress _ _) = true
is_finish (redis_execute _) = true
is_finish c = false

pub finish_sends_nothing : (c : Call) → is_finish c ≡ true → sends_nothing c ≡ true
finish_sends_nothing (channel_send _ _) h = h
finish_sends_nothing (user_send _ _) h = h
finish_sends_nothing c h = refl

finish_no_settings : (c : Call) → is_finish c ≡ true → reads_no_settings c ≡ true
finish_no_settings (fetch_row _) h = h
finish_no_settings c h = refl

module _ (t : String) (env : Env) (args : TaskArgs) where
  pub settings-Makes_quiet :
      (g : Option ℕ) (dm_me : Bool) → Makes sends_nothing env (settings_for g dm_me)
  unfolding get
  settings-Makes_quiet none dm_me = Makes-pure _
  settings-Makes_quiet (some g) true = Makes-pure _
  settings-Makes_quiet (some g) false =
      Makes-bind {A = Option GuildSettings} _ _ (Makes-await (fetch_row g) refl)
        (λ row. Makes-pure _)

  pub finish-Makes_any :
      (P : Call → Bool) (url : String) (settings : GuildSettings)
      → ((c : Call) → is_finish c ≡ true → P c ≡ true)
      → Makes P env (finish t url args settings)
  unfolding finish forget_job
  finish-Makes_any P url settings k = Makes-mono P _ k (
      Makes-bind _ _ (Makes-set_progress _ _ refl) λ _.
        Makes-bind _ _ (Makes-catch _ _ (Makes-redis_execute _ refl) (ignored-Makes _ env))
          λ _. Makes-pure _)

  -- Where Redis holds the delivered key of the task, a run sends nothing: no direct message and no post
  -- in a channel.
  pub delivered_once :
      (deps : Deps)
      → ((h : History) → env h (redis_exists (delivered_key t)) ≡ ok true)
      → Makes sends_nothing env (download_channel_media deps t args)
  unfolding download_channel_media task_settings deliver_phase is_delivered await
  delivered_once deps held = Makes-bind _ _ (Makes-set_progress _ _ refl) λ _.
      Makes-bind _ _ (settings-Makes_quiet args.guild_id args.dm_me) λ settings.
        Makes-bind _ _
          (Makes-mono sends_nothing _ (phase_1_sends_nothing t)
            (upload_phase-Makes env deps t args settings))
          λ url.
            Makes-bind _ _
              (Makes-bind_answer {A = Bool} _ _ (Makes-await (redis_exists _) refl)
                λ d known. when url settings d (sym known.answer ∙ held known.history))
              λ _. finish-Makes_any sends_nothing url settings finish_sends_nothing
    where
      when :
          (url : String) (settings : GuildSettings) (d : Bool)
          → ◌≡◌ {A = Result Bool} (ok d) (ok true)
          → Makes sends_nothing env (unless_delivered t url args settings d)
      when url settings true e = Makes-pure tt
      when url settings false e = cc

  -- With `dm_me`, a run never reads the settings of the guild, its media policy among them.
  pub dm_me_reads_no_settings :
      (deps : Deps)
      → args.dm_me ≡ true
      → Makes reads_no_settings env (download_channel_media deps t args)
  unfolding download_channel_media task_settings deliver_phase is_delivered send_result
      mark_delivered
  dm_me_reads_no_settings deps private = Makes-bind _ _ (Makes-set_progress _ _ refl) λ _.
      Makes-bind _ _ (rw private (no_row args.guild_id)) λ settings.
        Makes-bind _ _
          (Makes-mono reads_no_settings _ (phase_1_no_settings t)
            (upload_phase-Makes env deps t args settings))
          λ url.
            Makes-bind _ _
              (Makes-bind {A = Bool} _ _ (Makes-await (redis_exists _) refl) (when url settings))
              λ _. finish-Makes_any reads_no_settings url settings finish_no_settings
    where
      no_row : (g : Option ℕ) → Makes reads_no_settings env (settings_for g true)
      no_row none = Makes-pure _
      no_row (some g) = Makes-pure _

      when :
          (url : String) (settings : GuildSettings) (d : Bool)
          → Makes reads_no_settings env (unless_delivered t url args settings d)
      when url settings true = Makes-pure tt
      when url settings false = Makes-bind _ _ (Makes-set_progress _ _ refl) λ _.
          Makes-bind _ _
            (Makes-mono reads_no_settings _ delivery_no_settings (send_in_mode-Makes env _ _ _ _))
            λ _. Makes-redis_set _ _ _ refl
