-- ===== src/Tests/Processes.antt =====
-- Examples of the processes of the bot and of the worker: start, end, presence, and the heartbeat.
use discord_downloader_bot.Prelude.{
  ℕ, any, text_eq, subst, ◌≡◌, ◌≤◌, ◌<◌, ◌+◌, ◌*◌, ◌%◌, refl, inl, inr, some, if◌then◌else◌, true,
  false, none, List, [], ◌∷◌, ◌++◌, map, arith,
}
use mathlib.Core.List.{reverse, filter_map}
use discord_downloader_bot.Unicode.{codes}
use discord_downloader_bot.Data.{Fraction}
use discord_downloader_bot.World.{
  Result, acquires, healthcheck_server, value_error, db_pool, ok, Env, result, after, ◌>>=◌,
  random_choice, load_extension, redis_error, redis_set, scan_iter, raised, broker, storage,
}
use discord_downloader_bot.World.Trace.{calls}
use discord_downloader_bot.World.Held.{is_held}
use discord_downloader_bot.World.Steps.{ok-injective}
use discord_downloader_bot.Bot.Errors.{cooldown_clock}
use discord_downloader_bot.Bot.Errors.Cooldown.{cooldown_clock-within_half_second}
use discord_downloader_bot.Bot.Presence.{all_statuses, pick, status_rounds}
use discord_downloader_bot.Bot.Presence.Picks.{NeverTwice, status_rounds-NeverTwice}
use discord_downloader_bot.Bot.Lifecycle.{
  BotState, step, stem, initial, setup_hook, close, load_cogs, extension_of,
}
use discord_downloader_bot.Bot.Lifecycle.Close.{its_broker}
use discord_downloader_bot.Bot.Lifecycle.Ends.{close_undoes_setup}
use discord_downloader_bot.Bot.Lifecycle.Cogs.{load_cogs-tries_each}
use discord_downloader_bot.Worker.Process.{on_worker_startup, on_worker_shutdown}
use discord_downloader_bot.Storage.Azure.{azure, build_client, init}
use discord_downloader_bot.Storage.Backend.{get_storage_backend}
use discord_downloader_bot.Db.Pool.{build_pool}
use discord_downloader_bot.Worker.Process.Held.{its_storage, worker_closes_what_it_opens}
use discord_downloader_bot.Worker.Healthcheck.{
  idle_loop, main, init_key, heartbeat_key, heartbeat_ttl_seconds,
}
use discord_downloader_bot.Keys.{decimal}
use discord_downloader_bot.Worker.Healthcheck.Alive.{
  lives, ScansPrefix, is_literal, beating_worker_is_healthy,
}
use discord_downloader_bot.Tests.Values.{some_settings, some_client, some_connect, all_well}

-- `random.choice` picks the one status first, and the other one later.
abbrev two_picks : Env
two_picks [] (random_choice _) = ok "Packaging memories… please hold."
two_picks (e ∷ h) (random_choice _) = ok "I collect. I compress. I disappear."
two_picks h c = all_well h c

status_rounds-NeverTwice_example :
    NeverTwice none
      ("Packaging memories… please hold." ∷ "I collect. I compress. I disappear." ∷ [])
unfolding status_rounds pick ◌>>=◌
status_rounds-NeverTwice_example =
    status_rounds-NeverTwice 2 1 all_statuses none two_picks []
      (after (status_rounds 2 1 all_statuses none two_picks []))
      ("Packaging memories… please hold." ∷ "I collect. I compress. I disappear." ∷ [])
      (omega arith) refl

-- 25 hours and a bit more than one second and a half.
abbrev long_cooldown : Fraction
long_cooldown = record { num = 900016; den = 10 }

cooldown_clock-within_half_second_example :
    let c = cooldown_clock long_cooldown in
    let named = (c.hours * 3600 + c.minutes * 60 + c.seconds) * 10 in
    let left = 900016 % 864000 in
    (c.hours < 24)
    × (c.minutes < 60)
    × (c.seconds ≤ 60)
    × (2 * named ≤ 2 * left + 10)
    × (2 * left ≤ 2 * named + 10)
cooldown_clock-within_half_second_example =
    cooldown_clock-within_half_second long_cooldown (omega arith)

abbrev two_files : List (List ℕ)
two_files = codes "__init__.py" ∷ codes "setup.py" ∷ []

-- The server of the health check cannot be started.
abbrev no_server : Env
no_server h (acquires healthcheck_server) = raised value_error
no_server h c = all_well h c

abbrev setup_then : Result (Unit {0}) × BotState
setup_then =
    (raised value_error, record { healthcheck_server = false; db_pool = true; redis = true })

close_undoes_setup_example :
    is_held broker (
      after (
        close false setup_then.1 no_server
          (after (setup_hook false two_files initial no_server []))))
    ≡ false
unfolding setup_hook step load_cogs extension_of stem build_pool ◌>>=◌
close_undoes_setup_example =
    close_undoes_setup no_server two_files []
      (after (setup_hook false two_files initial no_server [])) setup_then broker (λ h. refl)
      (record { closes = λ h r. refl }) refl refl its_broker refl refl

load_cogs-tries_each_example :
    (result (load_cogs two_files all_well []) ≡ ok tt)
    × (calls (after (load_cogs two_files all_well []))
        ≡ reverse (map load_extension (filter_map extension_of two_files)) ++ [])
load_cogs-tries_each_example = load_cogs-tries_each all_well two_files [] (λ h x. inl refl)

worker_closes_what_it_opens_example :
    (is_held storage (after (on_worker_startup some_connect some_settings all_well [])) ≡ true)
    × (is_held storage (
          after ((on_worker_startup some_connect some_settings >>= on_worker_shutdown) all_well []))
        ≡ false)
unfolding get_storage_backend init build_client
worker_closes_what_it_opens_example =
    worker_closes_what_it_opens all_well some_connect some_settings
      (azure some_settings some_client) [] storage
      (record { opens = λ h r. refl; applies = λ h. refl }) (λ h r. refl) its_storage refl

-- Redis refuses every write, and a scan lists the sentinel while it is there.
abbrev refuses_writes : Env
refuses_writes h (redis_set k v ttl) = raised redis_error
refuses_writes h (scan_iter p) =
    ok
      (if lives "taskiq:heartbeat:scheduler:7" 0 h then "taskiq:heartbeat:scheduler:7" ∷ [] else [])
refuses_writes h c = all_well h c

lists_it : ScansPrefix "taskiq:heartbeat:scheduler:7" refuses_writes
lists_it h prefix keys literal starts alive e =
    subst (λ ks. any (text_eq "taskiq:heartbeat:scheduler:7") ks ≡ true) (ok-injective e)
      (rw alive refl)

beating_worker_is_healthy_example :
    result (
      main (some "scheduler") refuses_writes (
        after (
          idle_loop 2 true (init_key (some "scheduler") 7) refuses_writes (
            record {
              call = redis_set (init_key (some "scheduler") 7) "1" heartbeat_ttl_seconds;
              returned = true;
            }
            ∷ []))))
    ≡ ok 0
unfolding init_key heartbeat_key decimal is_literal
beating_worker_is_healthy_example =
    beating_worker_is_healthy 2 (some "scheduler") 7 refuses_writes [] (omega arith) (λ k. refl)
      (λ k. inr refl) refl lists_it (record { scans = λ k. refl; closes = λ k. refl })
