-- ===== src/Storage/Backend.antt =====
-- storage/__init__.py: the choice of the backend.
use discord_downloader_bot.Prelude.{none, text_eq, if◌then◌else◌}
use discord_downloader_bot.Config.{Settings}
use discord_downloader_bot.World.{Result, raised, storage_config_error}
use discord_downloader_bot.Storage.Base.{StorageBackend}
use discord_downloader_bot.Storage.Azure.{FromConnectionString, init}

unfoldable pub get_storage_backend : FromConnectionString → Settings → Result StorageBackend
get_storage_backend from_connection_string settings =
    if text_eq settings.storage_backend "azure"
    then init from_connection_string settings none
    else raised storage_config_error
