-- ===== src/Bot/Lifecycle.antt =====
-- `load_cogs`, `setup_hook`, `close`, `on_message` and `main` of bot.py.
pub mod Cogs
pub mod Close
pub mod Ends
use discord_downloader_bot.Prelude.{
  ℕ, Bool, true, false, ◌||◌, Option, none, some, List, [], ◌∷◌, ◌++◌, if◌then◌else◌,
}
use discord_downloader_bot.Unicode.{codes, codes_eq, is_prefix}
use discord_downloader_bot.World.{
  Exn, extension_error, Result, ok, raised, Exec, await, pure, raise, lift, catch, attempt, ◌>>=◌,
  ◌>>◌, acquires, releases, wait_closed, Resource, broker, app_redis, healthcheck_server,
  discord_client, start_status_task, load_extension, process_commands,
}
use discord_downloader_bot.Db.Pool.{build_pool, close_pool}

-- What comes before a last ".py".
unfoldable pub stem : List ℕ → Option (List ℕ)
stem [] = none
stem (c ∷ s) =
    let rest = stem s in
    if codes_eq (c ∷ s) (codes ".py")
    then some []
    else elim rest [ none ↦ none | some t ↦ some (c ∷ t) ]

-- The extension of a file of the directory: `file.endswith(".py") and not file.startswith("_")`.
unfoldable pub extension_of : List ℕ → Option (List ℕ)
unfolding stem
extension_of file =
    if is_prefix (codes "_") file
    then none
    else elim (stem file) [ none ↦ none | some t ↦ some (codes "downloader_bot.cogs." ++ t) ]

abbrev pub not_loaded : Exn → Exec (Unit {0})
not_loaded extension_error = pure tt
not_loaded e = raise e

abbrev pub load_if : Option (List ℕ) → Exec (Unit {0})
load_if none = pure tt
load_if (some extension) = catch (await (load_extension extension)) not_loaded

-- The argument is what `os.listdir` returns.
unfoldable pub load_cogs : List (List ℕ) → Exec (Unit {0})
unfolding extension_of
load_cogs [] = pure tt
load_cogs (file ∷ files) = do load_if (extension_of file); load_cogs files

-- The attributes of the bot that are `None` at first and that `close` reads.
pub record BotState : Type 0 where
  pub healthcheck_server : Bool
  pub db_pool : Bool
  pub redis : Bool

abbrev pub initial : BotState
initial = record { healthcheck_server = false; db_pool = false; redis = false }

-- A step of `setup_hook`: where it raises, the attributes stay as they are.
unfoldable pub step :
    {A : Type 0}
    → Exec A
    → BotState
    → Exec (Result (Unit {0}) × BotState)
    → Exec (Result (Unit {0}) × BotState)
step m s next = do r ← attempt m; elim r [ ok _ ↦ next | raised e ↦ pure (raised e, s) ]

abbrev pub unless : Bool → Exec (Unit {0}) → Exec (Unit {0})
unless b m = if b then pure tt else m

-- `setup_hook`: how it ends, and the attributes then.
unfoldable pub setup_hook : Bool → List (List ℕ) → BotState → Exec (Result (Unit {0}) × BotState)
unfolding load_cogs step
setup_hook is_worker_process files s = step (unless is_worker_process (await (acquires broker))) s (
    step build_pool s (
      let s₁ = record s { db_pool = true } in
      step (await (acquires app_redis)) s₁ (
        let s₂ = record s₁ { redis = true } in
        step (load_cogs files) s₂ (
          step (await (acquires healthcheck_server)) s₂ (
            let s₃ = record s₂ { healthcheck_server = true } in
            step (await start_status_task) s₃ (pure (ok tt, s₃)))))))

-- `DiscordBot.close`
unfoldable pub close : Bool → BotState → Exec (Unit {0})
close is_worker_process s = do
  unless (if s.healthcheck_server then false else true) (await (wait_closed healthcheck_server))
  unless is_worker_process (await (releases broker))
  unless (if s.db_pool then false else true) close_pool
  unless (if s.redis then false else true) (await (releases app_redis))
  await (releases discord_client)

-- `on_message`: whether the author is the bot itself, and whether it is a bot.
unfoldable pub on_message : Bool → Bool → ℕ → Exec (Unit {0})
on_message is_self is_bot message = unless (is_self || is_bot) (await (process_commands message))
