-- ===== src/Worker/Healthcheck/Probe.antt =====
-- What the heartbeat and the probe promise.
use discord_downloader_bot.Prelude.{ℕ, String, ◌≡◌, ◌⊎◌, Bool, ◌∷◌, arith}
use Prim.Native.String.{◌++◌}
use discord_downloader_bot.World.{
  redis_error, Result, ok, raised, Event, Env, History, result, is_ok, redis_set, scan_iter, aclose,
  ◌>>=◌,
}
use discord_downloader_bot.Worker.Healthcheck.{
  refresh, pre_execute, heartbeat_ttl_seconds, exit_code, check,
}

abbrev pub scanned : Env → History → String → Event
scanned env h role = record {
  call = scan_iter ("taskiq:heartbeat:" ++ role ++ ":*");
  returned = is_ok (env h (scan_iter ("taskiq:heartbeat:" ++ role ++ ":*")));
}

abbrev pub closed : Env → History → Event
closed env h = record { call = aclose; returned = is_ok (env h aclose) }

-- The probe looks once, closes its client as the last call, and where the client closes it ends with 0
-- just for a sentinel that is there, and with the scan's exception where that raises; else with what the
-- closing raises.
pub probe_lem :
    (env : Env) (h : History) (role : String)
    → let look = scanned env h role in
      check role env h ≡ (
        elim (env (look ∷ h) aclose) as (λ _. Result ℕ) [
          | ok _ ↦ elim (env h (scan_iter ("taskiq:heartbeat:" ++ role ++ ":*"))) [
            | ok keys ↦ ok (exit_code keys)
            | raised e ↦ raised e
          ]
          | raised e ↦ raised e
        ],
        closed env (look ∷ h) ∷ look ∷ h,
      )
unfolding check ◌>>=◌
probe_lem env h role = ground arith

-- A heartbeat that Redis refuses never fails a task: with any answer of Redis to the write, or with an
-- error of Redis, `pre_execute` hands the message on unchanged.
pub heartbeat_never_fails :
    {M : Type 0} (env : Env) (h : History) (started : Bool) (key : String) (message : M)
    → (env h (redis_set key "1" heartbeat_ttl_seconds) ≡ ok tt)
      ⊎ (env h (redis_set key "1" heartbeat_ttl_seconds) ≡ raised redis_error)
    → result (pre_execute started key message env h) ≡ ok message
unfolding pre_execute refresh ◌>>=◌
heartbeat_never_fails env h started key message answer = ground arith
