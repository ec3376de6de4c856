-- ===== src/Worker/Process/Held.antt =====
-- What a worker holds open.
use discord_downloader_bot.Prelude.{true, false, [], ◌∷◌, ◌++◌, ◌≡◌, refl, ◌∙◌, ap}
use discord_downloader_bot.Config.{Settings}
use discord_downloader_bot.World.{
  Exn, await, is_ok, ok, raised, result, Call, Event, Env, History, after, pure, ◌>>=◌, acquires,
  releases, Resource, discord_client, download_session, storage, db_pool, app_redis, apply_schema,
}
use discord_downloader_bot.World.Steps.{>>=-ok, >>=-raised, await_bind-ok, await_bind-raised}
use discord_downloader_bot.World.Held.{is_held}
use discord_downloader_bot.Storage.Base.{StorageBackend}
use discord_downloader_bot.Storage.Azure.{FromConnectionString, aexit}
use discord_downloader_bot.Storage.Backend.{get_storage_backend}
use discord_downloader_bot.Db.Pool.{build_pool, close_pool}
use discord_downloader_bot.Download.DiscordRest.{open_client, close_client}
use discord_downloader_bot.Worker.Process.{attached, on_worker_startup, on_worker_shutdown}

-- What a worker opens.
pub data IsWorkers : Resource → Type 0 where
  its_client : IsWorkers discord_client
  its_session : IsWorkers download_session
  its_storage : IsWorkers storage
  its_pool : IsWorkers db_pool
  its_redis : IsWorkers app_redis

-- Every opening returns, and so does the schema.
pub record AllOpens (env : Env) : Type 0 where
  pub opens : (h : History) (r : Resource) → env h (acquires r) ≡ ok tt
  pub applies : (h : History) → env h apply_schema ≡ ok tt

abbrev pub did : Call → Event
did c = record { call = c; returned = true }

-- The calls of the start and of the end, the newest first.
abbrev pub started_calls : History
started_calls =
    did (acquires app_redis)
    ∷ did apply_schema
    ∷ did (acquires db_pool)
    ∷ did (acquires storage)
    ∷ did (acquires download_session)
    ∷ did (acquires discord_client)
    ∷ []

abbrev ended_calls : History
ended_calls =
    did (releases app_redis)
    ∷ did (releases db_pool)
    ∷ did (releases discord_client)
    ∷ did (releases download_session)
    ∷ did (releases storage)
    ∷ []

aexit_returns :
    (env : Env) (h : History) (r : Resource)
    → env h (releases r) ≡ ok tt
    → aexit r env h ≡ (ok false, did (releases r) ∷ h)
unfolding aexit pure
aexit_returns env h r e = await_bind-ok (releases r) _ env h tt e

aexit_raises :
    (env : Env) (h : History) (r : Resource) (x : Exn)
    → env h (releases r) ≡ raised x
    → aexit r env h ≡ (raised x, record { call = releases r; returned = false } ∷ h)
unfolding aexit
aexit_raises env h r x e = await_bind-raised (releases r) _ env h x e

module _ (env : Env) (from_connection_string : FromConnectionString) (settings : Settings)
    (backend : StorageBackend) (all : AllOpens env) where
  startup_calls :
      (h : History)
      → get_storage_backend from_connection_string settings ≡ ok backend
      → on_worker_startup from_connection_string settings env h
        ≡ (ok (attached backend), started_calls ++ h)
  unfolding on_worker_startup build_pool open_client ◌>>=◌
  startup_calls h chosen = simp (all.opens, all.applies, chosen) refl

  shutdown_calls :
      (h : History)
      → ((h : History) (r : Resource) → env h (releases r) ≡ ok tt)
      → on_worker_shutdown (attached backend) env h ≡ (ok tt, ended_calls ++ h)
  unfolding on_worker_shutdown close_pool close_client await
  shutdown_calls h closes =
      let closed : History =
        did (releases db_pool)
        ∷ did (releases discord_client)
        ∷ did (releases download_session)
        ∷ did (releases storage)
        ∷ h in
      >>=-ok (aexit storage) _ env h _ false (aexit_returns env h storage (closes h storage))
      ∙ await_bind-ok (releases download_session) _ env _ tt (closes _ _)
      ∙ await_bind-ok (releases discord_client) _ env _ tt (closes _ _)
      ∙ await_bind-ok (releases db_pool) _ env _ tt (closes _ _)
      ∙ ap (λ r. (r, record { call = releases app_redis; returned = is_ok r } ∷ closed))
          (closes closed app_redis)

  failed_shutdown :
      (h : History) (x : Exn)
      → env h (releases storage) ≡ raised x
      → on_worker_shutdown (attached backend) env h
        ≡ (raised x, record { call = releases storage; returned = false } ∷ h)
  unfolding on_worker_shutdown
  failed_shutdown h x e = >>=-raised (aexit storage) _ env h _ x (aexit_raises env h storage x e)

opened : (r : Resource) (h : History) → IsWorkers r → is_held r (started_calls ++ h) ≡ true
opened r h its_client = refl
opened r h its_session = refl
opened r h its_storage = refl
opened r h its_pool = refl
opened r h its_redis = refl

-- Where every opening and closing returns and the storage backend could be made, a worker that has
-- started holds each of its resources, and one that has ended holds none of them.
pub worker_closes_what_it_opens :
    (env : Env) (from_connection_string : FromConnectionString) (settings : Settings)
    (backend : StorageBackend) (h : History) (r : Resource)
    → AllOpens env
    → ((h : History) (r : Resource) → env h (releases r) ≡ ok tt)
    → IsWorkers r
    → get_storage_backend from_connection_string settings ≡ ok backend
    → (is_held r (after (on_worker_startup from_connection_string settings env h)) ≡ true)
      × (is_held r (
            after
              ((on_worker_startup from_connection_string settings >>= on_worker_shutdown) env h))
          ≡ false)
worker_closes_what_it_opens env from_connection_string settings backend h r all closes its chosen =
    let start = startup_calls env from_connection_string settings backend all h chosen in
    let end =
      shutdown_calls env from_connection_string settings backend all (started_calls ++ h) closes in
    let both =
      >>=-ok (on_worker_startup from_connection_string settings) on_worker_shutdown env h _
        (attached backend) start
      ∙ end in
    (rw start (opened r h its), rw both (gone r its))
  where
    gone : (r : Resource) → IsWorkers r → is_held r (ended_calls ++ (started_calls ++ h)) ≡ false
    gone r its_client = refl
    gone r its_session = refl
    gone r its_storage = refl
    gone r its_pool = refl
    gone r its_redis = refl

-- Where every opening returns, the storage backend could be made and its closing raises, the worker
-- ends with that exception, and holds each of its resources still.
pub failed_closing_leaves_all :
    (env : Env) (from_connection_string : FromConnectionString) (settings : Settings)
    (backend : StorageBackend) (h : History) (r : Resource) (x : Exn)
    → AllOpens env
    → ((h : History) → env h (releases storage) ≡ raised x)
    → IsWorkers r
    → get_storage_backend from_connection_string settings ≡ ok backend
    → let end = (on_worker_startup from_connection_string settings >>= on_worker_shutdown) env h in
      (result end ≡ raised x) × (is_held r (after end) ≡ true)
failed_closing_leaves_all env from_connection_string settings backend h r x all fails its chosen =
    let start = startup_calls env from_connection_string settings backend all h chosen in
    let both =
      >>=-ok (on_worker_startup from_connection_string settings) on_worker_shutdown env h _
        (attached backend) start
      ∙ failed_shutdown env from_connection_string settings backend all _ x (fails _) in
    (rw both refl, rw both (opened r h its))
