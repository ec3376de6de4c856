-- ===== src/Download/RateLimit/Client.antt =====
-- `acquire` and `refund` of download/ratelimit.py: an optimistic transaction, tried again for as long as
-- Redis raises a WatchError in a round. `while True` has a bound here, the first argument; `out_of_fuel` says
-- that it is used up.
use discord_downloader_bot.Prelude.{ℕ, zero, suc, Option, none, some, List, [], ◌∷◌}
use discord_downloader_bot.Int.{pos}
use discord_downloader_bot.Keys.{bucket_key}
use discord_downloader_bot.World.{
  Exn, watch_error, out_of_fuel, Bucket, RedisOp, hset_bucket, expire, Exec, await, pure, raise,
  lift, catch, ◌>>=◌, ◌>>◌, redis_watch, redis_unwatch, redis_hmget, redis_execute, time,
}
use discord_downloader_bot.Download.RateLimit.Bucket.{Limits, Verdict, ttl_seconds, spend, credit}

abbrev pub write : Limits → ℕ → Bucket → List RedisOp
write l guild_id b =
    hset_bucket (bucket_key guild_id) b ∷ expire (bucket_key guild_id) (pos (ttl_seconds l)) ∷ []

-- `except WatchError: continue` around the whole round; `none` asks for another try.
abbrev pub try_again : {A : Type 0} → Exn → Exec (Option A)
try_again watch_error = pure none
try_again e = raise e

unfoldable pub once : {A : Type 0} → Exec A → Exec (Option A)
once {A} round = catch (do a ← round; pure (some a)) try_again

-- The body of the loop of `acquire`. Each of its calls of Redis can raise a WatchError.
unfoldable pub acquire_round : Limits → ℕ → Exec Verdict
acquire_round l guild_id = do
  await (redis_watch (bucket_key guild_id))
  stored ← await (redis_hmget (bucket_key guild_id))
  now ← await time
  decision ← lift (spend l stored now)
  await (redis_execute (write l guild_id decision.0))
  pure decision.1

abbrev pub or_again : Exec Verdict → Option Verdict → Exec Verdict
or_again again none = again
or_again again (some v) = pure v

unfoldable pub acquire : ℕ → Limits → ℕ → Exec Verdict
acquire zero l guild_id = raise out_of_fuel
acquire (suc fuel) l guild_id = do
  done ← once (acquire_round l guild_id)
  or_again (acquire fuel l guild_id) done

abbrev pub credit_or_unwatch : Limits → ℕ → Option Bucket → Exec (Unit {0})
credit_or_unwatch l guild_id none = await redis_unwatch
credit_or_unwatch l guild_id (some b) = await (redis_execute (write l guild_id b))

-- The body of the loop of `refund`. A round that writes nothing unwatches.
unfoldable pub refund_round : Limits → ℕ → Exec (Unit {0})
refund_round l guild_id = do
  await (redis_watch (bucket_key guild_id))
  stored ← await (redis_hmget (bucket_key guild_id))
  elim stored [
    | none ↦ await redis_unwatch
    | some b ↦ do now ← await time; credit_or_unwatch l guild_id (credit l (some b) now)
  ]

abbrev pub refund_again : Exec (Unit {0}) → Option (Unit {0}) → Exec (Unit {0})
refund_again again none = again
refund_again again (some _) = pure tt

unfoldable pub refund : ℕ → Limits → ℕ → Exec (Unit {0})
refund zero l guild_id = raise out_of_fuel
refund (suc fuel) l guild_id = do
  done ← once (refund_round l guild_id)
  refund_again (refund fuel l guild_id) done
