-- ===== src/Download/Filters/Period.antt =====
-- The named periods of download/filters.py, and the subtraction of a `timedelta`.
use discord_downloader_bot.Prelude.{
  ℕ, ◌+◌, ◌-◌, ◌*◌, ◌/◌, ◌%◌, String, text_eq, ltb, if◌then◌else◌, List, [], ◌∷◌,
}
use discord_downloader_bot.Datetime.{Datetime, absolute, day_micros, from_ordinal, weekday}
use discord_downloader_bot.Data.{Piece, str}
use discord_downloader_bot.World.{
  Result, ok, raised, filter_parse_error, overflow_error, value_error,
}
use discord_downloader_bot.Raise.{◌>>=◌}

-- `t - timedelta(seconds=s)`: a date before the year 1 is an `OverflowError`.
unfoldable pub minus : Datetime → ℕ → Result Datetime
unfolding absolute from_ordinal
minus t s =
    if ltb (absolute t) (s * 1000000 + day_micros)
    then raised overflow_error
    else let left = absolute t - s * 1000000 in
      ok (from_ordinal (left / day_micros) (left % day_micros))

abbrev pub days : ℕ → ℕ
days n = n * 86400

unfoldable pub start_of_day : Datetime → Datetime
start_of_day t = record t { micros = 0 }

unfoldable pub start_of_week : Datetime → Result Datetime
unfolding start_of_day minus weekday
start_of_week t = minus (start_of_day t) (days (weekday t))

unfoldable pub start_of_month : Datetime → Datetime
unfolding start_of_day
start_of_month t = record (start_of_day t) { day = 1 }

unfoldable pub start_of_year : Datetime → Datetime
unfolding start_of_day
start_of_year t = record (start_of_day t) { month = 1; day = 1 }

unfoldable pub previous_month_start : Datetime → Result Datetime
unfolding start_of_month minus
previous_month_start t = do
  last_day ← minus (start_of_month t) (days 1)
  ok (start_of_month last_day)

-- `.replace(year=0)` is a `ValueError`.
unfoldable pub previous_year_start : Datetime → Result Datetime
unfolding start_of_year
previous_year_start t =
    if ltb t.year 2 then raised value_error else ok (record (start_of_year t) { year = t.year - 1 })

abbrev pub unknown_period : String → List Piece
unknown_period name =
    str "Unknown named period `"
    ∷ str name
    ∷ str "`. Expected one of: "
    ∷ str "today, yesterday, this-week, last-week, this-month, last-month, this-year, last-year"
    ∷ str "."
    ∷ []

-- `(after, before)`
unfoldable pub resolve_named_period : String → Datetime → Result (Datetime × Datetime)
unfolding start_of_day start_of_week start_of_month start_of_year previous_month_start
    previous_year_start minus
resolve_named_period name now =
    if text_eq name "today"
    then ok (start_of_day now, now)
    else if text_eq name "yesterday"
    then (do after ← minus (start_of_day now) (days 1); ok (after, start_of_day now))
    else if text_eq name "this-week"
    then (do after ← start_of_week now; ok (after, now))
    else if text_eq name "last-week"
    then (do this_week ← start_of_week now; after ← minus this_week (days 7); ok (after, this_week))
    else if text_eq name "this-month"
    then ok (start_of_month now, now)
    else if text_eq name "last-month"
    then (do after ← previous_month_start now; ok (after, start_of_month now))
    else if text_eq name "this-year"
    then ok (start_of_year now, now)
    else if text_eq name "last-year"
    then (do after ← previous_year_start now; ok (after, start_of_year now))
    else raised (filter_parse_error (unknown_period name))
