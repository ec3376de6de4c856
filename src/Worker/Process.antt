-- ===== src/Worker/Process.antt =====
-- tq.py: what a worker opens when it starts, hands to its tasks and closes when it ends, and which failed
-- tasks it tries again.
pub mod Held
pub mod Providers
use discord_downloader_bot.Config.{Settings}
use discord_downloader_bot.World.{
  Exn, task_cancelled, Exec, await, pure, lift, ◌>>=◌, ◌>>◌, acquires, releases, Resource,
  discord_client, download_session, storage, db_pool, app_redis,
}
use discord_downloader_bot.Storage.Base.{StorageBackend}
use discord_downloader_bot.Storage.Azure.{FromConnectionString, aexit}
use discord_downloader_bot.Storage.Backend.{get_storage_backend}
use discord_downloader_bot.Db.Pool.{build_pool, close_pool}
use discord_downloader_bot.Download.DiscordRest.{open_client, close_client}

-- What `_on_worker_startup` attaches to the state of the worker. The repository borrows its connections
-- from the pool, which stands for it; `exit_stack` is the resource that the exit stack closes.
pub record WorkerState : Type 0 where
  pub discord_client : Resource
  pub download_session : Resource
  pub exit_stack : Resource
  pub storage : StorageBackend
  pub db_pool : Resource
  pub guild_settings_repo : Resource
  pub redis : Resource

abbrev pub attached : StorageBackend → WorkerState
attached backend = record {
  discord_client = discord_client;
  download_session = download_session;
  exit_stack = storage;
  storage = backend;
  db_pool = db_pool;
  guild_settings_repo = db_pool;
  redis = app_redis;
}

-- `_on_worker_startup`
unfoldable pub on_worker_startup : FromConnectionString → Settings → Exec WorkerState
on_worker_startup from_connection_string settings = do
  open_client
  await (acquires download_session)
  backend ← lift (get_storage_backend from_connection_string settings)
  await (acquires storage)
  build_pool
  await (acquires app_redis)
  pure (attached backend)

-- `_on_worker_shutdown`
unfoldable pub on_worker_shutdown : WorkerState → Exec (Unit {0})
on_worker_shutdown state = do
  aexit state.exit_stack
  await (releases state.download_session)
  close_client
  close_pool
  await (releases state.redis)

-- The providers by which a task asks for them.
unfoldable pub get_discord_client : WorkerState → Resource
get_discord_client state = state.discord_client

unfoldable pub get_download_session : WorkerState → Resource
get_download_session state = state.download_session

unfoldable pub get_storage : WorkerState → StorageBackend
get_storage state = state.storage

unfoldable pub get_guild_settings_repo : WorkerState → Resource
get_guild_settings_repo state = state.guild_settings_repo

unfoldable pub get_redis : WorkerState → Resource
get_redis state = state.redis

-- `CancelAwareRetryMiddleware.on_error`; the first argument is that of `SimpleRetryMiddleware`, which
-- enqueues the task again or gives it up.
unfoldable pub on_error : (Exn → Exec (Unit {0})) → Exn → Exec (Unit {0})
on_error retry task_cancelled = pure tt
on_error retry e = retry e
