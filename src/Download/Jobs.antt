-- ===== src/Download/Jobs.antt =====
-- download/jobs.py: the index from users to their jobs. The score of a job is `time.time()`, here in
-- microseconds.
pub mod Index
pub mod Transactions
pub mod Listed
use discord_downloader_bot.Prelude.{ℕ, String, Option, [], ◌∷◌}
use discord_downloader_bot.Int.{ℤ}
use discord_downloader_bot.Data.{JobMeta}
use discord_downloader_bot.Keys.{meta_key, user_jobs_key}
use discord_downloader_bot.World.{
  Exec, await, ◌>>=◌, redis_get_meta, redis_latest, redis_execute, set_meta, zadd, zrem, delete,
  expire, time,
}

unfoldable pub record_job : String → JobMeta → ℤ → Exec (Unit {0})
record_job task_id meta ttl_seconds = do
  now ← await time
  await (
      redis_execute (
        set_meta (meta_key task_id) meta ttl_seconds
        ∷ zadd (user_jobs_key meta.owner_user_id) task_id now
        ∷ expire (user_jobs_key meta.owner_user_id) ttl_seconds
        ∷ []))

unfoldable pub get_job_meta : String → Exec (Option JobMeta)
get_job_meta task_id = await (redis_get_meta (meta_key task_id))

-- `ZREVRANGE key 0 0` has one member or none.
unfoldable pub latest_job_for_user : ℕ → Exec (Option String)
latest_job_for_user user_id = await (redis_latest (user_jobs_key user_id))

unfoldable pub forget_job : String → ℕ → Exec (Unit {0})
forget_job task_id owner_user_id =
    await
      (redis_execute (delete (meta_key task_id) ∷ zrem (user_jobs_key owner_user_id) task_id ∷ []))
