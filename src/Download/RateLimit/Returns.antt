-- ===== src/Download/RateLimit/Returns.antt =====
-- That `acquire` answers, however often it loses a race before.
use discord_downloader_bot.Prelude.{
  ℕ, zero, suc, ◌<◌, ◌≡◌, ap, ◌∙◌, true, false, Option, none, some, ◌∷◌, arith,
}
use discord_downloader_bot.Keys.{bucket_key}
use discord_downloader_bot.World.{
  await, watch_error, Bucket, Call, Result, ok, raised, Env, History, redis_watch, redis_hmget,
  redis_execute, time, ◌>>=◌, lift, pure,
}
use discord_downloader_bot.World.Steps.{
  >>=-ok, >>=-raised, await_bind-ok, await_bind-raised, catch-ok, catch-raised,
}
use discord_downloader_bot.Download.RateLimit.Bucket.{Limits, Verdict, spend}
use discord_downloader_bot.Download.RateLimit.Client.{
  write, once, acquire_round, acquire, try_again,
}
use discord_downloader_bot.Download.RateLimit.Race.{watched, read, timed}

-- What a round that begins at `h` decides, with the events of its reads.
pub record Reads (l : Limits) (g : ℕ) (env : Env) (h : History) (b : Bucket) (v : Verdict)
    : Type 0 where
  pub stored : Option Bucket
  pub now : ℕ
  pub was_watched : env h (redis_watch (bucket_key g)) ≡ ok tt
  pub was_read : env (watched g h) (redis_hmget (bucket_key g)) ≡ ok stored
  pub was_time : env (read g h) time ≡ ok now
  pub decided : spend l stored now ≡ ok (b, v)

abbrev pub failed : Call → History → History
failed c h = record { call = c; returned = false } ∷ h

-- A round from `h` ends with a WatchError of Redis: of the watch, of the read or of the transaction.
pub data Loses (l : Limits) (g : ℕ) (env : Env) (h : History) : History → Type 0 where
  at_watch :
      env h (redis_watch (bucket_key g)) ≡ raised watch_error
      → Loses l g env h (failed (redis_watch (bucket_key g)) h)
  at_read :
      env h (redis_watch (bucket_key g)) ≡ ok tt
      → env (watched g h) (redis_hmget (bucket_key g)) ≡ raised watch_error
      → Loses l g env h (failed (redis_hmget (bucket_key g)) (watched g h))
  at_commit :
      {b : Bucket} {v : Verdict}
      → Reads l g env h b v
      → env (timed g h) (redis_execute (write l g b)) ≡ raised watch_error
      → Loses l g env h (failed (redis_execute (write l g b)) (timed g h))

-- From `h`, the loop loses some number of rounds and wins the next.
pub data Wins (l : Limits) (g : ℕ) (env : Env) : ℕ → History → Verdict → Type 0 where
  wins :
      {h : History} {b : Bucket} {v : Verdict}
      → Reads l g env h b v
      → env (timed g h) (redis_execute (write l g b)) ≡ ok tt
      → Wins l g env 0 h v
  loses :
      {n : ℕ} {h k : History} {v : Verdict}
      → Loses l g env h k
      → Wins l g env n k v
      → Wins l g env (suc n) h v

module _ (l : Limits) (g : ℕ) (env : Env) where
  -- The reads of a round.
  decided_at :
      (h : History) (b : Bucket) (v : Verdict)
      → Reads l g env h b v
      → acquire_round l g env h
        ≡ (await (redis_execute (write l g b)) >>= λ _. pure v) env (timed g h)
  unfolding acquire_round lift
  decided_at h b v r =
      await_bind-ok (redis_watch (bucket_key g)) _ env h tt r.was_watched
      ∙ await_bind-ok (redis_hmget (bucket_key g)) _ env (watched g h) r.stored r.was_read
      ∙ await_bind-ok time _ env (read g h) r.now r.was_time
      ∙ >>=-ok (lift (spend l r.stored r.now)) _ env (timed g h) (timed g h) (b, v)
          (ap (λ (d : Result (Bucket × Verdict)). (d, timed g h)) r.decided)

  won_once :
      (h : History) (b : Bucket) (v : Verdict)
      → Reads l g env h b v
      → env (timed g h) (redis_execute (write l g b)) ≡ ok tt
      → once (acquire_round l g) env h
        ≡ (ok (some v), record { call = redis_execute (write l g b); returned = true } ∷ timed g h)
  unfolding once pure
  won_once h b v r e = catch-ok _ _ env h _ (some v) (
      >>=-ok {B = Option Verdict} (acquire_round l g) _ env h _ v (
        decided_at h b v r
        ∙ await_bind-ok (redis_execute (write l g b)) {B = Verdict} _ env (timed g h) tt e))

  -- A WatchError asks for another try, wherever in the round it is raised.
  again_once :
      (h k : History)
      → acquire_round l g env h ≡ (raised watch_error, k)
      → once (acquire_round l g) env h ≡ (ok none, k)
  unfolding once pure
  again_once h k e =
      catch-raised _ try_again env h k watch_error
        (>>=-raised {B = Option Verdict} (acquire_round l g) _ env h k watch_error e)

  lost_round :
      (h k : History) → Loses l g env h k → acquire_round l g env h ≡ (raised watch_error, k)
  unfolding acquire_round
  lost_round h k (at_watch e) = await_bind-raised (redis_watch (bucket_key g)) _ env h watch_error e
  lost_round h k (at_read w e) =
      await_bind-ok (redis_watch (bucket_key g)) _ env h tt w
      ∙ await_bind-raised (redis_hmget (bucket_key g)) _ env (watched g h) watch_error e
  lost_round h k (at_commit {b = b} {v = v} r e) =
      decided_at h b v r
      ∙ await_bind-raised (redis_execute (write l g b)) {B = Verdict} _ env (timed g h) watch_error
          e

  -- If the first `n` rounds lose, by a WatchError of any of their calls of Redis, and the next does
  -- not, a bound of more than `n` rounds is enough, and the answer is that of the round that wins.
  pub acquire_returns :
      (n fuel : ℕ) (h : History) (v : Verdict)
      → Wins l g env n h v
      → n < fuel
      → (acquire fuel l g env h).0 ≡ ok v
  unfolding acquire pure
  acquire_returns zero zero h v x le = elim le [ ]
  acquire_returns (suc n) zero h v x le = elim le [ ]
  acquire_returns zero (suc fuel) h v (wins {b = b} r e) le =
      ap (λ p. p.0) (>>=-ok (once (acquire_round l g)) _ env h _ (some v) (won_once h b v r e))
  acquire_returns (suc n) (suc fuel) h v (loses {k = k} lost next) le =
      ap (λ p. p.0)
        (>>=-ok (once (acquire_round l g)) _ env h k none (again_once h k (lost_round h k lost)))
      ∙ acquire_returns n fuel k v next (omega arith)
