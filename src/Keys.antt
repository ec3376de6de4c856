-- ===== src/Keys.antt =====
-- The Redis keys: `_META_KEY` and `_USER_JOBS_KEY` of download/jobs.py, `_ARCHIVE_URL_KEY` and
-- `_DELIVERED_KEY` of download/idempotency.py, `_KEY` of download/ratelimit.py and the sentinel of
-- worker/healthcheck.py.
pub mod Distinct
pub mod Digits
use Prim.Native.String.{◌++◌}
use discord_downloader_bot.Prelude.{ℕ, zero, suc, ◌/◌, ◌%◌, String, ltb, ◌==◌, if◌then◌else◌}

abbrev pub digit : ℕ → String
digit d =
    if d == 0
    then "0"
    else if d == 1
    then "1"
    else if d == 2
    then "2"
    else if d == 3
    then "3"
    else if d == 4
    then "4"
    else if d == 5
    then "5"
    else if d == 6
    then "6"
    else if d == 7
    then "7"
    else if d == 8
    then "8"
    else "9"

unfoldable pub decimal_digits : ℕ → ℕ → String
decimal_digits zero n = ""
decimal_digits (suc f) n =
    let higher = decimal_digits f (n / 10) in (if ltb n 10 then "" else higher) ++ digit (n % 10)

-- A number in a format string. A number has at most one digit for each unit below it.
unfoldable pub decimal : ℕ → String
unfolding decimal_digits
decimal n = decimal_digits (suc n) n

unfoldable pub meta_key : String → String
meta_key task_id = "task:" ++ task_id ++ ":meta"

unfoldable pub archive_url_key : String → String
archive_url_key task_id = "task:" ++ task_id ++ ":archive_url"

unfoldable pub delivered_key : String → String
delivered_key task_id = "task:" ++ task_id ++ ":delivered"

unfoldable pub user_jobs_key : ℕ → String
user_jobs_key user_id = "user:" ++ decimal user_id ++ ":active_jobs"

unfoldable pub bucket_key : ℕ → String
bucket_key guild_id = "ratelimit:guild:" ++ decimal guild_id
