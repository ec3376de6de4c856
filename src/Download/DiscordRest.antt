-- ===== src/Download/DiscordRest.antt =====
-- download/discord_rest.py: the client of Discord that a worker uses, without a gateway.
use discord_downloader_bot.World.{Exec, await, acquires, releases, discord_client}

-- The session that `login` opens is the client's.
unfoldable pub open_client : Exec (Unit {0})
open_client = await (acquires discord_client)

unfoldable pub close_client : Exec (Unit {0})
close_client = await (releases discord_client)
