-- ===== src/Download/Idempotency.antt =====
-- download/idempotency.py: what a task has finished, remembered in Redis under its id.
use discord_downloader_bot.Prelude.{String, Bool, Option}
use discord_downloader_bot.Int.{ℤ}
use discord_downloader_bot.Keys.{archive_url_key, delivered_key}
use discord_downloader_bot.World.{Exec, await, redis_get, redis_set, redis_exists}

unfoldable pub get_cached_archive_url : String → Exec (Option String)
get_cached_archive_url task_id = await (redis_get (archive_url_key task_id))

unfoldable pub cache_archive_url : String → String → ℤ → Exec (Unit {0})
cache_archive_url task_id url ttl_seconds =
    await (redis_set (archive_url_key task_id) url ttl_seconds)

unfoldable pub is_delivered : String → Exec Bool
is_delivered task_id = await (redis_exists (delivered_key task_id))

unfoldable pub mark_delivered : String → ℤ → Exec (Unit {0})
mark_delivered task_id ttl_seconds = await (redis_set (delivered_key task_id) "1" ttl_seconds)
