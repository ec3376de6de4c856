-- ===== src/Worker/Healthcheck.antt =====
-- worker/healthcheck.py: the sentinel that each process of the worker keeps in Redis, and the probe that
-- looks for one.
pub mod Probe
pub mod Idle
pub mod Alive
use Prim.Native.String.{◌++◌}
use discord_downloader_bot.Prelude.{
  ℕ, zero, suc, String, Bool, true, false, Option, none, some, get_or, List, [], ◌∷◌,
}
use discord_downloader_bot.Int.{ℤ, pos}
use discord_downloader_bot.Keys.{decimal}
use discord_downloader_bot.World.{
  Exn, redis_error, watch_error, cancelled_error, Result, ok, raised, Exec, await, pure, raise,
  catch, attempt, ◌>>=◌, ◌>>◌, redis_set, redis_delete, scan_iter, aclose, lift, sleep, acquires,
  heartbeat_client,
}

-- `_HEARTBEAT_TTL_SECONDS`
abbrev pub heartbeat_ttl_seconds : ℤ
heartbeat_ttl_seconds = pos 90

-- `_HEARTBEAT_REFRESH_SECONDS`
abbrev pub heartbeat_refresh_seconds : ℕ
heartbeat_refresh_seconds = 30

unfoldable pub heartbeat_key : String → ℕ → String
heartbeat_key role pid = "taskiq:heartbeat:" ++ role ++ ":" ++ decimal pid

-- What `os.environ.get("TASKIQ_PROCESS_ROLE", "worker")` is, from the variable.
abbrev pub process_role : Option String → String
process_role variable = get_or variable "worker"

-- `HeartbeatMiddleware.__init__` composes the key from the variable and `os.getpid()`.
unfoldable pub init_key : Option String → ℕ → String
init_key variable pid = heartbeat_key (process_role variable) pid

-- `except redis.RedisError`
abbrev pub not_written : Exn → Exec (Unit {0})
not_written redis_error = pure tt
not_written watch_error = pure tt
not_written e = raise e

-- `_refresh`; the first argument says whether the client is there.
unfoldable pub refresh : Bool → String → Exec (Unit {0})
refresh false key = pure tt
refresh true key = catch (await (redis_set key "1" heartbeat_ttl_seconds)) not_written

-- `pre_execute` and `post_execute`
unfoldable pub pre_execute : {M : Type 0} → Bool → String → M → Exec M
pre_execute started key message = do refresh started key; pure message

unfoldable pub post_execute : {M R : Type 0} → Bool → String → M → R → Exec (Unit {0})
post_execute started key message result = refresh started key

-- A number of rounds of `_loop`.
unfoldable pub idle_loop : ℕ → Bool → String → Exec (Unit {0})
unfolding refresh
idle_loop zero started key = pure tt
idle_loop (suc rounds) started key = do
  await (sleep heartbeat_refresh_seconds)
  refresh started key
  idle_loop rounds started key

-- `startup`, up to the start of the idle loop.
unfoldable pub startup : String → Exec (Unit {0})
startup key = do await (acquires heartbeat_client); refresh true key

-- `contextlib.suppress(asyncio.CancelledError)`
abbrev pub suppress_cancelled : Exn → Exec (Unit {0})
suppress_cancelled cancelled_error = pure tt
suppress_cancelled e = raise e

-- How the idle loop ends once it is cancelled, where it was started.
abbrev pub stop : Option (Result (Unit {0})) → Exec (Unit {0})
stop none = pure tt
stop (some end) = catch (lift end) suppress_cancelled

-- The `try`/`finally` of `shutdown` around the deletion of the sentinel.
abbrev pub closing : {A : Type 0} → Result A → Exec A
closing (ok a) = do await aclose; pure a
closing (raised e) = do await aclose; raise e

-- The part of `shutdown` that follows the cancellation of the idle loop.
unfoldable pub remove_sentinel : Bool → String → Exec (Unit {0})
remove_sentinel false key = pure tt
remove_sentinel true key = do r ← attempt (await (redis_delete key)); closing r

unfoldable pub shutdown : Option (Result (Unit {0})) → Bool → String → Exec (Unit {0})
unfolding remove_sentinel
shutdown task started key = do stop task; remove_sentinel started key

abbrev pub exit_code : List String → ℕ
exit_code [] = 1
exit_code (k ∷ ks) = 0

-- `_check`
unfoldable pub check : String → Exec ℕ
check role = do
  r ←
      attempt
        (do keys ← await (scan_iter ("taskiq:heartbeat:" ++ role ++ ":*")); pure (exit_code keys))
  closing r

-- `main`, up to the exit with this code; the argument is the variable `TASKIQ_PROCESS_ROLE`.
unfoldable pub main : Option String → Exec ℕ
main variable = check (process_role variable)
