-- ===== src/Tests/Limits.antt =====
-- Examples of the rate limit.
use discord_downloader_bot.Prelude.{◌+◌, ◌-◌, ◌*◌, ◌≤◌, ◌≡◌, refl, none, some, [], ◌∷◌, arith}
use discord_downloader_bot.World.{Env, raised, watch_error, redis_hmget, Bucket, ok, History, after}
use discord_downloader_bot.Download.RateLimit.Bucket.{
  Limits, allowed, token, ttl_seconds, balance, spend, credit,
}
use discord_downloader_bot.Download.RateLimit.Client.{acquire}
use discord_downloader_bot.Download.RateLimit.Bounds.{
  DecidesBounded, CreditsBounded, writes-IsBounded, eviction_is_invisible,
}
use discord_downloader_bot.Download.RateLimit.Rate.{
  acquires, refunds, evicts, fresh, run, long_run_cap,
}
use discord_downloader_bot.Download.RateLimit.Returns.{wins, loses, at_read, acquire_returns}
use discord_downloader_bot.Tests.Values.{all_well, noon}

-- Three tokens, five an hour.
abbrev few : Limits
few = record { capacity = 3; refill_per_hour = 5 }

abbrev empty : Bucket
empty = record { tokens = 0; last_refill = 10 }

writes-IsBounded_example :
    DecidesBounded few (spend few (some empty) 20) × CreditsBounded few (credit few (some empty) 20)
writes-IsBounded_example = writes-IsBounded few (some empty) 20

eviction_is_invisible_example : balance few (some empty) 5000000000 ≡ balance few none 5000000000
unfolding ttl_seconds
eviction_is_invisible_example =
    eviction_is_invisible few empty 5000000000 (omega arith) (omega arith)

long_run_cap_example :
    let s =
      run few
        (fresh (some empty))
        (acquires 20 ∷ refunds 30 ∷ evicts 4320000030 ∷ acquires 4320000040 ∷ []) in
    s.granted * token
    ≤ few.capacity * token + s.refunded * token + (4320000050 - 10) * few.refill_per_hour
long_run_cap_example =
    long_run_cap few (some empty) 10 4320000050
      (acquires 20 ∷ refunds 30 ∷ evicts 4320000030 ∷ acquires 4320000040 ∷ []) (omega arith)
      (omega arith) (omega arith, (omega arith, (omega arith, (omega arith, omega arith))))

-- The guild's first command.
abbrev first : History
first = after (acquire 1 few 5 all_well [])

-- What the first round of a guild writes.
abbrev two_left : Bucket
two_left = record { tokens = 7200000000; last_refill = noon }

-- The connection is lost in the first round, between the watch and the read.
abbrev loses_first : Env
loses_first (e ∷ []) (redis_hmget _) = raised watch_error
loses_first h c = all_well h c

acquire_returns_example : (acquire 2 few 5 loses_first []).0 ≡ ok allowed
unfolding spend
acquire_returns_example =
    acquire_returns few 5 loses_first 1 2 [] allowed
      (loses (at_read refl refl) (
        wins {b = two_left}
          (record {
            stored = none;
            now = noon;
            was_watched = refl;
            was_read = refl;
            was_time = refl;
            decided = refl;
          })
          refl))
      (omega arith)
