-- ===== src/Download/RateLimit/Race.antt =====
-- The loops of `acquire` and `refund` among other clients of Redis.
use discord_downloader_bot.Prelude.{ℕ, ◌≡◌, ◌≢◌, ap, ◌∙◌, inl, inr, true, Option, some, ◌∷◌}
use discord_downloader_bot.Keys.{bucket_key}
use discord_downloader_bot.World.{
  Exn, watch_error, Bucket, ok, Env, Exec, History, redis_watch, redis_hmget, redis_execute, time,
  pure, raise,
}
use discord_downloader_bot.World.Steps.{>>=-eq-ok, catch-eq-ok}
use discord_downloader_bot.Download.RateLimit.Bucket.{Limits, Verdict, spend}
use discord_downloader_bot.Download.RateLimit.Client.{write, once, try_again}

-- A round that begins at `h`: `stored` is what it reads, `now` its time, and the events of the reads.
abbrev pub watched : ℕ → History → History
watched g h = record { call = redis_watch (bucket_key g); returned = true } ∷ h

abbrev pub read : ℕ → History → History
read g h = record { call = redis_hmget (bucket_key g); returned = true } ∷ watched g h

abbrev pub timed : ℕ → History → History
timed g h = record { call = time; returned = true } ∷ read g h

-- What `acquire` answers is what one atomic step decides on the bucket that it read in its last round,
-- and that round's transaction, which Redis runs only if nobody wrote the bucket since, stored the
-- outcome of that step: nothing is granted on a stale read.
pub record Atomic (l : Limits) (g : ℕ) (env : Env) (v : Verdict) (h' : History) : Type 0 where
  pub before : History
  pub stored : Option Bucket
  pub now : ℕ
  pub bucket : Bucket
  pub was_read : env (watched g before) (redis_hmget (bucket_key g)) ≡ ok stored
  pub was_time : env (read g before) time ≡ ok now
  pub decided : spend l stored now ≡ ok (bucket, v)
  pub committed : env (timed g before) (redis_execute (write l g bucket)) ≡ ok tt
  pub last :
      h' ≡ record { call = redis_execute (write l g bucket); returned = true } ∷ timed g before

try_again-eq-some :
    {A : Type 0} (x : Exn) (env : Env) (h h' : History) (a : A)
    → try_again x env h ≢ (ok (some a), h')
unfolding pure raise
try_again-eq-some watch_error env h h' a e = cc
try_again-eq-some x env h h' a e = cc

-- A round that has an answer raised nothing.
pub once-eq-some :
    {A : Type 0} (round : Exec A) (env : Env) (h h' : History) (a : A)
    → once round env h ≡ (ok (some a), h')
    → round env h ≡ (ok a, h')
unfolding once pure
once-eq-some {A} round env h h' a e = elim (catch-eq-ok _ _ env h h' (some a) e) [
  | inl e' ↦
      let (b, k, ran, end) = >>=-eq-ok {B = Option A} round _ env h e' in
      let same : b ≡ a = cc in
      ran ∙ ap (λ x. (ok x, k)) same ∙ ap (λ x. (ok a, x)) (ap (λ p. p.1) end)
  | inr (x, k, e') ↦ absurd (try_again-eq-some x env k h' a e')
]
