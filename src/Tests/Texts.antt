-- ===== src/Tests/Texts.antt =====
-- Examples of texts that are written out and read again, and of the storage.
use Prim.Native.String.{◌++◌ as append}
use discord_downloader_bot.Prelude.{ℕ, ◌*◌, ◌≡◌, refl, ◌∷◌, [], List, arith}
use discord_downloader_bot.Keys.{decimal}
use discord_downloader_bot.World.{ok}
use discord_downloader_bot.Download.Filters.Duration.{parse_duration}
use discord_downloader_bot.Download.Filters.Printed.{letter, seconds, days, parse_duration-decimal}
use discord_downloader_bot.Storage.Disposition.{format_content_disposition}
use discord_downloader_bot.Storage.Header.{Describes, format_content_disposition-Names}
use discord_downloader_bot.Tests.Values.{ascii}

parse_duration-decimal_example :
    parse_duration ascii (append (decimal 12) (letter days)) ≡ ok (12 * seconds days)
parse_duration-decimal_example = parse_duration-decimal ascii 12 days (omega arith) (omega arith)

-- "aé€"
abbrev some_name : List ℕ
some_name = 97 ∷ 233 ∷ 8364 ∷ []

format_content_disposition-Names_example :
    Describes some_name (format_content_disposition some_name)
format_content_disposition-Names_example =
    format_content_disposition-Names some_name refl (omega arith, (omega arith, (omega arith, tt)))
