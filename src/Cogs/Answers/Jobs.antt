-- ===== src/Cogs/Answers/Jobs.antt =====
-- /status and /cancel answer the user once.
use discord_downloader_bot.Prelude.{ℕ, String, Bool, true, false, ◌≡◌, refl, Option, none, some}
use discord_downloader_bot.Data.{JobMeta, ProgressMeta, Stamp, iso, unreadable}
use discord_downloader_bot.World.{
  is_exception, Call, Env, defer, datetime_now, context_send, context_send_text,
  cancel as cancel_call, is_ready, is_cancelled, get_progress, await,
}
use discord_downloader_bot.World.Trace.{
  Makes, Makes-mono, Makes-if, Makes-bind, Makes-await, Makes-raise, Makes-pure, Makes-catch,
}
use discord_downloader_bot.World.Count.{Counted-if}
use discord_downloader_bot.Download.RateLimit.Calls.{refund-Makes}
use discord_downloader_bot.Cogs.Context.{Context, Bot}
use discord_downloader_bot.Cogs.Download.Command.{limits}
use discord_downloader_bot.Cogs.Answers.{
  is_quiet, AnswersOnce, limiter_quiet, answer-Counted, quiet_then,
}
use discord_downloader_bot.Cogs.Jobs.Access.{resolve_job}
use discord_downloader_bot.Cogs.Jobs.Privacy.{looks_up, resolve_job-Makes}
use discord_downloader_bot.Cogs.Jobs.Status
use discord_downloader_bot.Cogs.Jobs.Status.{heartbeat, show_progress, on_progress, show_job}
use discord_downloader_bot.Cogs.Jobs.Cancel
use discord_downloader_bot.Cogs.Jobs.Cancel.{logged, refund_eligible, refund_to, cancel_job}

looks_up_quiet : (c : Call) → looks_up c ≡ true → is_quiet c ≡ true
looks_up_quiet (context_send _ _) e = cc
looks_up_quiet (context_send_text _) e = cc
looks_up_quiet c e = refl

module _ (env : Env) where
  show_progress-AnswersOnce :
      (t : String) (meta : JobMeta) (p : ProgressMeta) → AnswersOnce env (show_progress t meta p)
  unfolding show_progress
  show_progress-AnswersOnce t meta p =
      quiet_then env (heartbeat p.updated_at) _ (age p.updated_at) λ a. answer-Counted env _ _
    where
      age : (o : Option Stamp) → Makes is_quiet env (heartbeat o)
      age none = Makes-pure _
      age (some (iso ts)) =
          Makes-bind {A = ℕ} _ _ (Makes-await datetime_now refl) λ now. Makes-pure _
      age (some (unreadable s)) = Makes-pure _

  show_job-AnswersOnce : (t : String) (meta : JobMeta) → AnswersOnce env (show_job t meta)
  unfolding show_job
  show_job-AnswersOnce t meta =
      quiet_then env (await (is_cancelled t)) _ (Makes-await (is_cancelled t) refl) λ cancelled.
        Counted-if 0 cancelled _ _ (λ _. 1) (answer-Counted env _ _)
          (quiet_then env (await (is_ready t)) _ (Makes-await (is_ready t) refl) λ ready.
            Counted-if 0 ready _ _ (λ _. 1) (answer-Counted env _ _)
              (quiet_then env (await (get_progress t)) _ (Makes-await (get_progress t) refl) shown))
    where
      shown : (o : Option (Option ProgressMeta)) → AnswersOnce env (on_progress t meta o)
      shown none = answer-Counted env _ _
      shown (some none) = show_progress-AnswersOnce t meta _
      shown (some (some p)) = show_progress-AnswersOnce t meta p

  cancel_job-AnswersOnce :
      (bot : Bot) (t : String) (meta : JobMeta) → AnswersOnce env (cancel_job bot t meta)
  unfolding cancel_job
  cancel_job-AnswersOnce bot t meta =
      quiet_then env (await (cancel_call t)) _ (Makes-await (cancel_call t) refl) λ _.
        quiet_then env (await (is_ready t)) _ (Makes-await (is_ready t) refl) λ ready.
          quiet_then env (await (get_progress t)) _ (Makes-await (get_progress t) refl) λ p.
            quiet_then env _ _ (refunded (refund_eligible meta ready p) meta.guild_id)
              λ _. answer-Counted env _ _
    where
      refunded : (b : Bool) (g : Option ℕ) → Makes is_quiet env (refund_to bot b g)
      refunded true (some g) =
          Makes-catch _ _
            (Makes-mono is_quiet _ limiter_quiet
              (refund-Makes env (limits bot.settings) g bot.tries))
            λ e. Makes-if (is_exception e) _ _ (λ _. Makes-pure tt) (λ _. Makes-raise e)
      refunded true none = Makes-pure tt
      refunded false g = Makes-pure tt

  module _ (c : Context) (asked_for : Option String) where
    looked : Makes is_quiet env (resolve_job c asked_for)
    looked = Makes-mono is_quiet _ looks_up_quiet (resolve_job-Makes env c asked_for)

    pub status-AnswersOnce : AnswersOnce env (Status.status c asked_for)
    unfolding Status.status
    status-AnswersOnce =
        quiet_then env (await (defer true)) _ (Makes-await (defer true) refl)
          λ _. quiet_then env _ _ looked shown
      where
        shown : (o : Option (String × JobMeta)) → AnswersOnce env (Status.on_resolved asked_for o)
        shown none = answer-Counted env _ _
        shown (some (t, meta)) = show_job-AnswersOnce t meta

    pub cancel-AnswersOnce : (bot : Bot) → AnswersOnce env (Cancel.cancel bot c asked_for)
    unfolding Cancel.cancel
    cancel-AnswersOnce bot =
        quiet_then env (await (defer true)) _ (Makes-await (defer true) refl)
          λ _. quiet_then env _ _ looked cancelled
      where
        cancelled :
            (o : Option (String × JobMeta)) → AnswersOnce env (Cancel.on_resolved bot asked_for o)
        cancelled none = answer-Counted env _ _
        cancelled (some (t, meta)) = cancel_job-AnswersOnce bot t meta
