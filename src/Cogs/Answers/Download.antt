-- ===== src/Cogs/Answers/Download.antt =====
-- /download answers the user once.
use discord_downloader_bot.Prelude.{ℕ, String, Bool, true, false, refl, Option, none, some, ◌==◌}
use discord_downloader_bot.Int.{ℤ}
use discord_downloader_bot.Data.{JobMeta, GuildSettings}
use discord_downloader_bot.World.{
  Exn, filter_parse_error, is_exception, Result, ok, raised, Env, kiq, defer, datetime_now,
  fetch_row, time, catch, await,
}
use discord_downloader_bot.World.Trace.{
  Makes, Makes-mono, Makes-if, Makes-bind, Makes-await, Makes-raise, Makes-pure, Makes-catch,
  Makes-redis_execute,
}
use discord_downloader_bot.World.Count.{
  Counted, Makes-Counted, Counted-pure, Counted-raise, Counted-if, Counted-catch, Counted-await,
  Counted-bind,
}
use discord_downloader_bot.Db.GuildSettings.{get}
use discord_downloader_bot.Download.Jobs.{record_job}
use discord_downloader_bot.Download.RateLimit.Bucket.{Verdict, allowed, retry_after}
use discord_downloader_bot.Download.RateLimit.Calls.{acquire-Makes}
use discord_downloader_bot.Cogs.Context.{Guild, Context, Bot}
use discord_downloader_bot.Cogs.Download.Command.{
  Options, conflicting, check_durations, lacks_permission, limits, tell_to_wait, acquire_for,
  rate_limit, enqueue, guild_settings_for, dropped, acknowledge, on_enqueued, on_admitted, submit,
  on_parsed, download,
}
use discord_downloader_bot.Cogs.Answers.{
  is_answer, is_quiet, AnswersOnce, limiter_quiet, unless_answered, answer-Counted,
  answered-Counted,
}

module _ (env : Env) (bot : Bot) (c : Context) (o : Options) where
  rate_limit-Counted :
      (g : Option Guild) → Counted is_answer env 0 (acquire_for bot c g) unless_answered
  rate_limit-Counted none = Counted-pure 0 (some false) unless_answered refl
  rate_limit-Counted (some g) =
      Counted-if 0 (c.author_id == g.owner_id) _ _ unless_answered
        (Counted-pure 0 (some false) unless_answered refl)
        (Counted-bind 0 _ _ (λ _. 0) unless_answered
          (Makes-Counted 0 _ (
            Makes-mono is_quiet _ limiter_quiet
              (acquire-Makes env (limits bot.settings) g.id bot.tries)))
          told)
    where
      told : (v : Verdict) → Counted is_answer env 0 (tell_to_wait v) unless_answered
      told allowed = Counted-pure 0 (some true) unless_answered refl
      told (retry_after w) =
          Counted-bind 0 (await datetime_now) _ (λ _. 0) unless_answered
            (Counted-await 0 datetime_now (λ _. 0) (λ _. refl)) λ now. answered-Counted env _ _

  enqueue-Counted : Counted is_answer env 0 (enqueue c o) unless_answered
  unfolding enqueue
  enqueue-Counted =
      Counted-catch 0 _ _ unless_answered
        (Counted-bind 0 (await (kiq _)) _ (λ _. 0) unless_answered
          (Counted-await 0 (kiq _) (λ _. 0) (λ _. refl))
          λ t. Counted-pure 0 (some t) unless_answered refl)
        (Makes-bind {A = String} _ _ (Makes-await (kiq _) refl) λ t. Makes-pure (some t))
        λ e.
          Counted-if 0 (is_exception e) _ _ unless_answered (answered-Counted env _ _)
            (Counted-raise 0 e unless_answered)

  settings-Makes : (g : Option Guild) → Makes is_quiet env (guild_settings_for g)
  unfolding get
  settings-Makes none = Makes-pure _
  settings-Makes (some g) =
      Makes-bind {A = Option GuildSettings} _ _ (Makes-await (fetch_row g.id) refl)
        λ _. Makes-pure _

  record-Makes :
      (t : String) (m : JobMeta) (ttl : ℤ) → Makes is_quiet env (catch (record_job t m ttl) dropped)
  unfolding record_job
  record-Makes t m ttl =
      Makes-catch _ _
        (Makes-bind {A = ℕ} _ _ (Makes-await time refl) λ now. Makes-redis_execute _ refl)
        λ e. Makes-if (is_exception e) _ _ (λ _. Makes-pure tt) (λ _. Makes-raise e)

  acknowledge-Counted : (paid : Bool) (t : String) → AnswersOnce env (acknowledge c o paid t)
  unfolding acknowledge
  acknowledge-Counted paid t =
      Counted-bind 0 _ _ (λ _. 0) (λ _. 1) (Makes-Counted 0 _ (settings-Makes c.guild))
        λ settings.
          Counted-bind 0 (await datetime_now) _ (λ _. 0) (λ _. 1)
            (Counted-await 0 datetime_now (λ _. 0) (λ _. refl))
            λ now.
              Counted-bind 0 _ _ (λ _. 0) (λ _. 1) (Makes-Counted 0 _ (record-Makes t _ _))
                λ _. answer-Counted env _ _

  submit-Counted : AnswersOnce env (submit bot c o)
  unfolding submit rate_limit
  submit-Counted = Counted-bind 0 _ _ unless_answered (λ _. 1) (rate_limit-Counted c.guild) admitted
    where
      enqueued :
          (paid : Bool) (t : Option String)
          → Counted is_answer env (unless_answered t) (on_enqueued c o paid t) (λ _. 1)
      enqueued paid none = Counted-pure 1 tt (λ _. 1) refl
      enqueued paid (some t) = acknowledge-Counted paid t

      admitted :
          (a : Option Bool) → Counted is_answer env (unless_answered a) (on_admitted c o a) (λ _. 1)
      admitted none = Counted-pure 1 tt (λ _. 1) refl
      admitted (some paid) =
          Counted-bind 0 _ _ unless_answered (λ _. 1) enqueue-Counted (enqueued paid)

  pub download-AnswersOnce : AnswersOnce env (download bot c o)
  unfolding download
  download-AnswersOnce =
      Counted-bind 0 (await (defer o.dm_me)) _ (λ _. 0) (λ _. 1)
        (Counted-await 0 (defer o.dm_me) (λ _. 0) (λ _. refl))
        λ _.
          Counted-if 0 (lacks_permission c) _ _ (λ _. 1) (answer-Counted env _ _)
            (Counted-if 0 (conflicting o) _ _ (λ _. 1) (answer-Counted env _ _)
              (parsed (check_durations bot.unicode o)))
    where
      failed : (x : Exn) → AnswersOnce env (on_parsed bot c o (raised x))
      failed (filter_parse_error m) = answer-Counted env _ _
      failed x = Counted-raise 0 x (λ _. 1)

      parsed : (r : Result (Unit {0})) → AnswersOnce env (on_parsed bot c o r)
      parsed (ok _) = submit-Counted
      parsed (raised x) = failed x
