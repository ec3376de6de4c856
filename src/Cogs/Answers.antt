-- ===== src/Cogs/Answers.antt =====
-- Every command answers the user once.
pub mod Download
pub mod Jobs
pub mod Commands
use discord_downloader_bot.Prelude.{
  ℕ, zero, suc, ◌+◌, String, Bool, true, false, not, ◌&&◌, ◌≡◌, refl, Option, none, some, ◌==◌,
  is_none, text_eq, if◌then◌else◌,
}
use discord_downloader_bot.Int.{ℤ}
use discord_downloader_bot.Data.{
  JobMeta, GuildSettings, ProgressMeta, Stamp, iso, unreadable, Embed,
}
use discord_downloader_bot.World.{
  Exn, filter_parse_error, not_guild_owner, no_private_message, is_exception, Result, ok, raised,
  Call, Env, Exec, kiq, defer, datetime_now, fetch_row, upsert_row, time, context_send,
  context_send_text, cancel as cancel_call, is_ready, is_cancelled, get_progress, pure, raise,
  catch, await, ◌>>=◌, ◌>>◌, redis_watch, redis_hmget, redis_execute, redis_unwatch, redis_latest,
  redis_get_meta, is_bot_owner,
}
use discord_downloader_bot.World.Trace.{
  Makes, Makes-mono, Makes-if, Makes-bind, Makes-await, Makes-raise, Makes-pure, Makes-catch,
  Makes-redis_execute, Makes-upsert_row,
}
use discord_downloader_bot.World.Count.{
  Counted, Makes-Counted, Counted-pure, Counted-raise, Counted-if, Counted-catch, Counted-await,
  Counted-bind, one_if,
}
use discord_downloader_bot.Db.GuildSettings.{get, upsert}
use discord_downloader_bot.Download.Jobs.{record_job}
use discord_downloader_bot.Download.RateLimit.Bucket.{Verdict, allowed, retry_after}
use discord_downloader_bot.Download.RateLimit.Calls.{is_limiter, acquire-Makes, refund-Makes}
use discord_downloader_bot.Cogs.Context.{Guild, Context, Bot}
use discord_downloader_bot.Cogs.Download.Command.{
  Options, conflicting, check_durations, lacks_permission, limits, tell_to_wait, acquire_for,
  rate_limit, unavailable, enqueue, guild_settings_for, dropped, acknowledge, on_enqueued,
  on_admitted, submit, on_parsed, download,
}

-- A message in answer to the command.
abbrev pub is_answer : Call → Bool
is_answer (context_send _ _) = true
is_answer (context_send_text _) = true
is_answer c = false

abbrev pub is_quiet : Call → Bool
is_quiet c = not (is_answer c)

-- A coroutine that, when it returns, has answered once more than before.
abbrev pub AnswersOnce : Env → Exec (Unit {0}) → Type 0
AnswersOnce env m = Counted is_answer env 0 m (λ _. 1)

pub limiter_quiet : (c : Call) → is_limiter c ≡ true → is_quiet c ≡ true
limiter_quiet (context_send _ _) e = cc
limiter_quiet (context_send_text _) e = cc
limiter_quiet c e = refl

-- How many answers a step has given that hands on nothing where it has answered.
abbrev pub unless_answered {ℓ} : {A : Type ℓ} → Option A → ℕ
unless_answered none = 1
unless_answered (some _) = 0

module _ (env : Env) where
  pub answer-Counted :
      (e : Embed) (ephemeral : Bool) → AnswersOnce env (await (context_send e ephemeral))
  answer-Counted e ephemeral = Counted-await 0 (context_send e ephemeral) (λ _. 1) (λ _. refl)

  pub answered-Counted :
      {A : Type 0} (e : Embed) (ephemeral : Bool)
      → Counted is_answer env 0 {A = Option A}
          (await (context_send e ephemeral) >> pure none)
          unless_answered
  answered-Counted e ephemeral =
      Counted-bind 0 _ _ (λ _. 1) unless_answered (answer-Counted e ephemeral)
        λ _. Counted-pure 1 none unless_answered refl

  -- A call that is no answer, before a step that answers.
  pub quiet_then :
      {A : Type 0} (m : Exec A) (k : A → Exec (Unit {0}))
      → Makes is_quiet env m
      → ((a : A) → AnswersOnce env (k a))
      → AnswersOnce env (m >>= k)
  quiet_then m k quiet then_answers =
      Counted-bind 0 m k (λ _. 0) (λ _. 1) (Makes-Counted 0 m quiet) then_answers
