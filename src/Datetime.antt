-- ===== src/Datetime.antt =====
-- Python's `datetime` and `timedelta` as download/filters.py uses them, in UTC. The time of the day
-- is in microseconds, a `timedelta` is a number of seconds.
pub mod Civil
pub mod Days
use discord_downloader_bot.Prelude.{
  ℕ, ◌+◌, ◌-◌, ◌*◌, ◌/◌, ◌%◌, Bool, ◌&&◌, ◌||◌, not, ltb, ◌==◌, if◌then◌else◌,
}

pub record Datetime : Type 0 where
  pub year : ℕ
  pub month : ℕ
  pub day : ℕ
  pub micros : ℕ

abbrev pub day_micros : ℕ
day_micros = 86400000000

unfoldable pub is_leap : ℕ → Bool
is_leap y = y % 4 == 0 && (not (y % 100 == 0) || y % 400 == 0)

abbrev pub days_before_month : ℕ → ℕ
days_before_month m =
    if m == 1
    then 0
    else if m == 2
    then 31
    else if m == 3
    then 59
    else if m == 4
    then 90
    else if m == 5
    then 120
    else if m == 6
    then 151
    else if m == 7
    then 181
    else if m == 8
    then 212
    else if m == 9
    then 243
    else if m == 10
    then 273
    else if m == 11
    then 304
    else 334

unfoldable pub days_in_month : ℕ → ℕ → ℕ
unfolding is_leap
days_in_month y m =
    if m == 2
    then (if is_leap y then 29 else 28)
    else if m == 4 || (m == 6 || (m == 9 || m == 11))
    then 30
    else 31

unfoldable pub days_before_year : ℕ → ℕ
days_before_year y = (y - 1) * 365 + (y - 1) / 4 - (y - 1) / 100 + (y - 1) / 400

-- The day number of `date.toordinal`: 1 is 1 January of the year 1.
unfoldable pub ymd_to_ordinal : ℕ → ℕ → ℕ → ℕ
unfolding days_before_year is_leap
ymd_to_ordinal y m d =
    days_before_year y + (days_before_month m + (if ltb 2 m && is_leap y then 1 else 0)) + d

unfoldable pub to_ordinal : Datetime → ℕ
unfolding ymd_to_ordinal
to_ordinal t = ymd_to_ordinal t.year t.month t.day

-- The month and day of a day of the year, counted from 0.
abbrev pub month_day : ℕ → Bool → ℕ → ℕ → Datetime
month_day year leap n micros =
    let month = (n + 50) / 32 in
    let before = days_before_month month + (if ltb 2 month && leap then 1 else 0) in
    if ltb n before
    then record {
      year = year;
      month = month - 1;
      day = n - (days_before_month (month - 1) + (if ltb 2 (month - 1) && leap then 1 else 0)) + 1;
      micros = micros;
    }
    else record { year = year; month = month; day = n - before + 1; micros = micros }

-- `date.fromordinal` of a day number from 1 on, by cycles of 400, 100, 4 and 1 years.
unfoldable pub from_ordinal : ℕ → ℕ → Datetime
from_ordinal ordinal micros =
    let n400 = (ordinal - 1) / 146097 in
    let r400 = (ordinal - 1) % 146097 in
    let n100 = r400 / 36524 in
    let r100 = r400 % 36524 in
    let n4 = r100 / 1461 in
    let r4 = r100 % 1461 in
    let n1 = r4 / 365 in
    let r1 = r4 % 365 in
    let year = n400 * 400 + n100 * 100 + n4 * 4 + n1 + 1 in
    if n1 == 4 || n100 == 4
    then record { year = year - 1; month = 12; day = 31; micros = micros }
    else month_day year (n1 == 3 && (not (n4 == 24) || n100 == 3)) r1 micros

-- `datetime.fromtimestamp(t / 10**6, UTC)`; 719163 is 1 January 1970.
unfoldable pub from_timestamp : ℕ → Datetime
unfolding from_ordinal
from_timestamp t = from_ordinal (719163 + t / day_micros) (t % day_micros)

-- Microseconds since the day before 1 January of the year 1.
unfoldable pub absolute : Datetime → ℕ
unfolding to_ordinal
absolute t = to_ordinal t * day_micros + t.micros

-- Monday is 0.
unfoldable pub weekday : Datetime → ℕ
unfolding to_ordinal
weekday t = (to_ordinal t + 6) % 7
