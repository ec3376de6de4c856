-- ===== src/World/Held.antt =====
-- What is open after a history: what was acquired, and not released since.
use discord_downloader_bot.Prelude.{Bool, true, false, [], ◌∷◌, if◌then◌else◌}
use discord_downloader_bot.World.{
  Call, History, acquires, releases, Resource, discord_client, download_session, storage, db_pool,
  app_redis, broker, healthcheck_server, heartbeat_client,
}

abbrev pub same : Resource → Resource → Bool
same discord_client discord_client = true
same download_session download_session = true
same storage storage = true
same db_pool db_pool = true
same app_redis app_redis = true
same broker broker = true
same healthcheck_server healthcheck_server = true
same heartbeat_client heartbeat_client = true
same _ _ = false

abbrev pub still_held : Resource → Call → Bool → Bool
still_held r (acquires s) b = if same r s then true else b
still_held r (releases s) b = if same r s then false else b
still_held r _ b = b

-- A call that raised opens nothing, and closes nothing.
abbrev pub is_held : Resource → History → Bool
is_held r [] = false
is_held r (e ∷ h) =
    let before = is_held r h in if e.returned then still_held r e.call before else before
