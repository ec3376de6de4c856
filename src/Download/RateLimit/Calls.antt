-- ===== src/Download/RateLimit/Calls.antt =====
-- The calls of the rate limiter.
use discord_downloader_bot.Prelude.{ℕ, zero, suc, Bool, true, false, refl, Option, none, some}
use discord_downloader_bot.World.{
  ◌>>=◌, await, Exn, watch_error, Bucket, Call, Env, Exec, redis_watch, redis_hmget, redis_execute,
  redis_unwatch, time,
}
use discord_downloader_bot.World.Trace.{
  Makes, Makes-bind, Makes-await, Makes-raise, Makes-pure, Makes-lift, Makes-catch,
  Makes-redis_execute,
}
use discord_downloader_bot.Download.RateLimit.Bucket.{Limits, Verdict, credit}
use discord_downloader_bot.Download.RateLimit.Client.{
  try_again, once, acquire_round, or_again, acquire, credit_or_unwatch, refund_round, refund_again,
  refund,
}

abbrev pub is_limiter : Call → Bool
is_limiter (redis_watch _) = true
is_limiter (redis_hmget _) = true
is_limiter (redis_execute _) = true
is_limiter redis_unwatch = true
is_limiter time = true
is_limiter c = false

module _ (env : Env) (l : Limits) (g : ℕ) where
  try_again-Makes : {A : Type 0} (e : Exn) → Makes is_limiter env (try_again {A = A} e)
  try_again-Makes watch_error = Makes-pure _
  try_again-Makes e = Makes-raise e

  once-Makes :
      {A : Type 0} (round : Exec A) → Makes is_limiter env round → Makes is_limiter env (once round)
  unfolding once
  once-Makes round made = Makes-catch _ _ (Makes-bind _ _ made (λ a. Makes-pure _)) try_again-Makes

  acquire_round-Makes : Makes is_limiter env (acquire_round l g)
  unfolding acquire_round
  acquire_round-Makes = Makes-bind {A = Unit {0}} _ _ (Makes-await (redis_watch _) refl) λ _.
      Makes-bind {A = Option Bucket} _ _ (Makes-await (redis_hmget _) refl) λ stored.
        Makes-bind {A = ℕ} _ _ (Makes-await time refl) λ now.
          Makes-bind _ _ (Makes-lift _)
            λ d. Makes-bind {A = Unit {0}} _ _ (Makes-redis_execute _ refl) λ _. Makes-pure _

  pub acquire-Makes : (fuel : ℕ) → Makes is_limiter env (acquire fuel l g)
  unfolding acquire
  acquire-Makes zero = Makes-raise _
  acquire-Makes (suc fuel) =
      Makes-bind _ _ (once-Makes _ acquire_round-Makes) (again (acquire-Makes fuel))
    where
      again :
          Makes is_limiter env (acquire fuel l g)
          → (done : Option Verdict) → Makes is_limiter env (or_again (acquire fuel l g) done)
      again made none = made
      again made (some v) = Makes-pure v

  refund_round-Makes : Makes is_limiter env (refund_round l g)
  unfolding refund_round
  refund_round-Makes =
      Makes-bind {A = Unit {0}} _ _ (Makes-await (redis_watch _) refl)
        λ _. Makes-bind {A = Option Bucket} _ _ (Makes-await (redis_hmget _) refl) given_back
    where
      unwatched : Makes is_limiter env {A = Unit {0}} (await redis_unwatch)
      unwatched = Makes-await redis_unwatch refl

      credited : (o : Option Bucket) → Makes is_limiter env (credit_or_unwatch l g o)
      credited none = unwatched
      credited (some b) = Makes-redis_execute _ refl

      given_back :
          (o : Option Bucket)
          → Makes is_limiter env (elim o as (λ _. Exec (Unit {0})) [
            | none ↦ await redis_unwatch
            | some b ↦ do now ← await time; credit_or_unwatch l g (credit l (some b) now)
          ])
      given_back none = unwatched
      given_back (some b) = Makes-bind {A = ℕ} _ _ (Makes-await time refl) λ now. credited _

  pub refund-Makes : (fuel : ℕ) → Makes is_limiter env (refund fuel l g)
  unfolding refund
  refund-Makes zero = Makes-raise _
  refund-Makes (suc fuel) =
      Makes-bind _ _ (once-Makes _ refund_round-Makes) (again (refund-Makes fuel))
    where
      again :
          Makes is_limiter env (refund fuel l g)
          → (done : Option (Unit {0})) → Makes is_limiter env (refund_again (refund fuel l g) done)
      again made none = made
      again made (some v) = Makes-pure tt
