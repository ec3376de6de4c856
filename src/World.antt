-- ===== src/World.antt =====
-- Everything outside the repository: Redis, Postgres, Discord, RabbitMQ with Taskiq, Azure, the CDN
-- and the clocks. The code reaches them by awaited calls. An environment answers each call as it
-- likes, from the whole history of calls so far, and may raise in place of an answer, so nothing
-- is assumed of them here; a theorem that relies on documented behaviour says so as a hypothesis.
pub mod Trace
pub mod Steps
pub mod Since
pub mod Held
pub mod Count
use discord_downloader_bot.Prelude.{ℕ, String, Bool, true, false, Option, List, ◌∷◌}
use discord_downloader_bot.Int.{ℤ}
use discord_downloader_bot.Datetime.{Datetime}
use discord_downloader_bot.Data.{
  Piece, Embed, GuildSettings, JobMeta, TaskState, ProgressMeta, Channel, TaskArgs, Message, Feed,
}

-- The exceptions that some handler of the code names, and the rest.
pub data Exn : Type 0 where
  forbidden not_found http_exception type_error : Exn
  client_error attachment_stream_error no_matching_attachments : Exn
  azure_error resource_not_found upload_error signed_url_error storage_config_error : Exn
  dm_unavailable value_error overflow_error zero_division_error : Exn
  watch_error redis_error : Exn
  not_guild_owner no_private_message : Exn
  task_cancelled cancelled_error : Exn
  -- `ExtensionNotFound`, `ExtensionAlreadyLoaded`, `NoEntryPointError` and `ExtensionFailed`
  extension_error : Exn
  filter_parse_error : List Piece → Exn
  other : ℕ → Exn
  -- no exception of the program: the bound that the model sets on a retry loop is used up
  out_of_fuel : Exn

-- `except Exception` takes all but `asyncio.CancelledError`, a `BaseException`.
abbrev pub is_exception : Exn → Bool
is_exception cancelled_error = false
is_exception out_of_fuel = false
is_exception _ = true

pub data Result {ℓ} (A : Type ℓ) : Type ℓ where
  ok : A → Result A
  raised : Exn → Result A

abbrev pub is_ok {ℓ} : {A : Type ℓ} → Result A → Bool
is_ok (ok _) = true
is_ok (raised _) = false

-- A bucket of the rate limiter, as its Redis hash holds it.
pub record Bucket : Type 0 where
  pub tokens : ℕ
  pub last_refill : ℕ

-- A command of a `MULTI`/`EXEC` pipeline.
pub data RedisOp : Type 0 where
  set_meta : String → JobMeta → ℤ → RedisOp
  zadd : String → String → ℕ → RedisOp
  zrem : String → String → RedisOp
  delete : String → RedisOp
  hset_bucket : String → Bucket → RedisOp
  expire : String → ℤ → RedisOp

-- What a process opens when it starts and closes when it ends.
pub data Resource : Type 0 where
  discord_client download_session storage db_pool app_redis broker healthcheck_server : Resource
  heartbeat_client : Resource

pub data Call : Type 0 where
  -- the opening and the closing of a resource, and what else is done when a process starts
  acquires releases : Resource → Call
  -- `asyncio.Server.wait_closed`
  wait_closed : Resource → Call
  apply_schema start_status_task : Call
  load_extension : List ℕ → Call
  sleep : ℕ → Call
  -- `random.choice`
  random_choice : List String → Call
  change_presence : String → Call
  process_commands : ℕ → Call
  -- Taskiq
  set_progress : TaskState → ProgressMeta → Call
  get_progress is_ready is_cancelled cancel : String → Call
  kiq : TaskArgs → Call
  -- Redis
  redis_get redis_exists redis_get_meta redis_hmget redis_watch : String → Call
  redis_set : String → String → ℤ → Call
  redis_latest : String → Call
  redis_delete : String → Call
  redis_execute : List RedisOp → Call
  redis_unwatch : Call
  -- the keys that match a pattern, and the end of a client of Redis
  scan_iter : String → Call
  aclose : Call
  -- Postgres
  fetch_row : ℕ → Call
  upsert_row : GuildSettings → Call
  -- Discord
  fetch_channel fetch_user is_bot_owner : ℕ → Call
  channel_send user_send : ℕ → Embed → Call
  -- the oldest message's id, and the messages of a window of the history, in the order of discord.py
  oldest_message : ℕ → Call
  channel_history : ℕ → Option Datetime → Option Datetime → Call
  defer : Bool → Call
  context_send : Embed → Bool → Call
  context_send_text : String → Call
  sync_global : Call
  copy_global_to sync_guild : ℕ → Call
  -- CDN
  http_get : String → Call
  http_body : String → ℕ → Call
  http_release : String → Call
  -- Azure
  upload_blob : String → String → Call
  generate_blob_sas : String → ℕ → ℤ → Option (List ℕ) → Call
  delete_blob : String → Call
  -- clocks, in microseconds
  time datetime_now monotonic date_today : Call

-- What each call answers.
abbrev pub Resp : Call → Type 0
Resp (get_progress _) = Option (Option ProgressMeta)
Resp (is_ready _) = Bool
Resp (is_cancelled _) = Bool
Resp (kiq _) = String
Resp (redis_get _) = Option String
Resp (redis_exists _) = Bool
Resp (redis_get_meta _) = Option JobMeta
Resp (redis_hmget _) = Option Bucket
Resp (redis_latest _) = Option String
Resp (scan_iter _) = List String
Resp (random_choice _) = String
Resp (fetch_row _) = Option GuildSettings
Resp (fetch_channel _) = Channel
Resp (is_bot_owner _) = Bool
Resp (oldest_message _) = Option ℕ
Resp (channel_history _ _ _) = Feed Exn
Resp (http_get _) = ℕ
Resp (http_body _ _) = List String
Resp (upload_blob _ _) = String
Resp (generate_blob_sas _ _ _ _) = String
Resp time = ℕ
Resp datetime_now = ℕ
Resp monotonic = ℕ
Resp date_today = String
Resp _ = Unit {0}

-- A call that was made, and whether it returned (or raised).
pub record Event : Type 0 where
  pub call : Call
  pub returned : Bool

-- The history, the newest call first.
abbrev pub History : Type 0
History = List Event

abbrev pub Env : Type 0
Env = History → (c : Call) → Result (Resp c)

-- A coroutine: it makes calls, and returns or raises. The calls stay made after a raise.
abbrev pub Exec : Type 0 → Type 0
Exec A = Env → History → Result A × History

unfoldable pub await : (c : Call) → Exec (Resp c)
await c env h = (env h c, record { call = c; returned = is_ok (env h c) } ∷ h)

unfoldable pub pure : {A : Type 0} → A → Exec A
pure a env h = (ok a, h)

unfoldable pub raise : {A : Type 0} → Exn → Exec A
raise e env h = (raised e, h)

-- `try: m except …: handler`
unfoldable pub catch : {A : Type 0} → Exec A → (Exn → Exec A) → Exec A
catch m handler env h =
    let (r, h') = m env h in elim r [ ok a ↦ (ok a, h') | raised e ↦ handler e env h' ]

-- How `m` ended, as a value: what a `finally` block goes on from.
unfoldable pub attempt : {A : Type 0} → Exec A → Exec (Result A)
attempt m env h = let (r, h') = m env h in (ok r, h')

-- A pure computation that may raise.
unfoldable pub lift : {A : Type 0} → Result A → Exec A
lift r env h = (r, h)

-- To open the bind is to open the other ways to build a coroutine.
infixl 5 ◌>>=◌ ◌>>◌
unfoldable pub ◌>>=◌ : {A B : Type 0} → Exec A → (A → Exec B) → Exec B
unfolding await pure raise lift catch attempt
◌>>=◌ m f env h = let (r, h') = m env h in elim r [ ok a ↦ f a env h' | raised e ↦ (raised e, h') ]

abbrev pub ◌>>◌ : {A B : Type 0} → Exec A → Exec B → Exec B
m >> k = m >>= λ _. k

-- What a coroutine returns or raises, and the history when it ends.
abbrev pub result {ℓ} : {A : Type ℓ} → Result A × History → Result A
result p = p.0

abbrev pub after {ℓ} : {A : Type ℓ} → Result A × History → History
after p = p.1
