-- ===== src/Bot/Lifecycle/Close.antt =====
-- What `close` closes.
use discord_downloader_bot.Prelude.{
  Bool, true, false, ◌≡◌, refl, [], ◌∷◌, ◌++◌, if◌then◌else◌, arith,
}
use discord_downloader_bot.World.{
  Exn, ok, raised, Call, Env, History, ◌>>=◌, releases, wait_closed, Resource, db_pool, broker,
  app_redis, healthcheck_server, discord_client,
}
use discord_downloader_bot.World.Steps.{await_bind-raised}
use discord_downloader_bot.World.Held.{is_held}
use discord_downloader_bot.Db.Pool.{close_pool}
use discord_downloader_bot.Bot.Lifecycle.{BotState, close}

-- What the bot opens for itself; the client is discord.py's, and the health check is only waited for.
pub data IsBots : Resource → Type 0 where
  its_broker : IsBots broker
  its_pool : IsBots db_pool
  its_redis : IsBots app_redis

-- Every release returns. Nothing is assumed of the wait for the health check's server.
pub record AllCloses (env : Env) : Type 0 where
  pub closes : (h : History) (r : Resource) → env h (releases r) ≡ ok tt

-- The attributes say what is held.
pub record Tells (s : BotState) (h : History) : Type 0 where
  pub pool : is_held db_pool h ≡ s.db_pool
  pub redis : is_held app_redis h ≡ s.redis

-- The calls of `close`, the newest first.
abbrev did_if : Bool → Call → History
did_if b c = if b then record { call = c; returned = true } ∷ [] else []

abbrev pub close_calls : BotState → History
close_calls s =
    did_if true (releases discord_client)
    ++ (did_if s.redis (releases app_redis)
        ++ (did_if s.db_pool (releases db_pool)
            ++ (did_if true (releases broker)
                ++ did_if s.healthcheck_server (wait_closed healthcheck_server))))

pub close-calls :
    (env : Env) (s : BotState) (h : History)
    → AllCloses env
    → s.healthcheck_server ≡ false
    → close false s env h ≡ (ok tt, close_calls s ++ h)
unfolding close close_pool ◌>>=◌
close-calls env s h all no_server = run s.healthcheck_server s.db_pool s.redis no_server
  where
    run :
        (a b c : Bool)
        → a ≡ false
        → let t : BotState = record { healthcheck_server = a; db_pool = b; redis = c } in
          close false t env h ≡ (ok tt, close_calls t ++ h)
    run true b c e = cc
    run false true true e = simp all.closes refl
    run false true false e = simp all.closes refl
    run false false true e = simp all.closes refl
    run false false false e = simp all.closes refl

-- Where there is a server, the wait for it comes first, and nothing else is done where it raises.
pub stuck_close :
    (env : Env) (s : BotState) (h : History) (x : Exn)
    → s.healthcheck_server ≡ true
    → env h (wait_closed healthcheck_server) ≡ raised x
    → close false s env h
      ≡ (raised x, record { call = wait_closed healthcheck_server; returned = false } ∷ h)
unfolding close
stuck_close env s h x server fails =
    rw server (await_bind-raised (wait_closed healthcheck_server) _ env h x fails)

pub close_calls-hold_none :
    (s : BotState) (h : History) (r : Resource)
    → Tells s h
    → IsBots r
    → is_held r (close_calls s ++ h) ≡ false
close_calls-hold_none s h r tells its = when s.db_pool s.redis tells.pool tells.redis r its
  where
    when :
        (b c : Bool)
        → is_held db_pool h ≡ b
        → is_held app_redis h ≡ c
        → (r : Resource) → IsBots r
        → is_held r (
            did_if true (releases discord_client)
            ++ (did_if c (releases app_redis)
                ++ (did_if b (releases db_pool)
                    ++ (did_if true (releases broker)
                        ++ did_if s.healthcheck_server (wait_closed healthcheck_server))))
            ++ h)
          ≡ false
    when b c pool redis r its_broker = ground arith
    when b c pool redis r its_pool = ground arith
    when b c pool redis r its_redis = ground arith
