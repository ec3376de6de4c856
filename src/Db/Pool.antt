-- ===== src/Db/Pool.antt =====
-- db/pool.py: the pool of connections to Postgres, and the schema.
use discord_downloader_bot.World.{Exec, await, ◌>>◌, acquires, releases, apply_schema, db_pool}

unfoldable pub build_pool : Exec (Unit {0})
build_pool = do await (acquires db_pool); await apply_schema

unfoldable pub close_pool : Exec (Unit {0})
close_pool = await (releases db_pool)
