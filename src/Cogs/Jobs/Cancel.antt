-- ===== src/Cogs/Jobs/Cancel.antt =====
-- `Jobs.cancel` of cogs/jobs.py.
use discord_downloader_bot.Prelude.{
  ℕ, String, Bool, true, not, ◌&&◌, Option, none, some, is_none, if◌then◌else◌,
}
use discord_downloader_bot.Data.{JobMeta, ProgressMeta}
use discord_downloader_bot.World.{
  Exn, is_exception, Exec, await, pure, raise, catch, ◌>>=◌, ◌>>◌, defer, context_send,
  cancel as cancel_call, is_ready, get_progress,
}
use discord_downloader_bot.Embeds
use discord_downloader_bot.Download.RateLimit.Client.{refund}
use discord_downloader_bot.Cogs.Context.{Context, Bot}
use discord_downloader_bot.Cogs.Download.Command.{limits}
use discord_downloader_bot.Cogs.Jobs.Access.{resolve_job}

unfoldable pub refund_eligible : JobMeta → Bool → Option (Option ProgressMeta) → Bool
refund_eligible meta ready progress = meta.enqueue_consumed_token && (not ready && is_none progress)

-- `except Exception`
abbrev pub logged : Exn → Exec (Unit {0})
logged e = if is_exception e then pure tt else raise e

abbrev pub refund_to : Bot → Bool → Option ℕ → Exec (Unit {0})
refund_to bot true (some guild_id) = catch (refund bot.tries (limits bot.settings) guild_id) logged
refund_to bot eligible guild_id = pure tt

-- Cancel first, then look whether the worker has started.
unfoldable pub cancel_job : Bot → String → JobMeta → Exec (Unit {0})
cancel_job bot target_id meta = do
  await (cancel_call target_id)
  ready ← await (is_ready target_id)
  progress ← await (get_progress target_id)
  refund_to bot (refund_eligible meta ready progress) meta.guild_id
  await (context_send (Embeds.job_cancelled target_id meta.owner_user_id) true)

abbrev pub on_resolved : Bot → Option String → Option (String × JobMeta) → Exec (Unit {0})
on_resolved bot task_id none = await (context_send (Embeds.job_not_found task_id) true)
on_resolved bot task_id (some (target_id, meta)) = cancel_job bot target_id meta

unfoldable pub cancel : Bot → Context → Option String → Exec (Unit {0})
cancel bot c task_id = do
  await (defer true)
  resolved ← resolve_job c task_id
  on_resolved bot task_id resolved
