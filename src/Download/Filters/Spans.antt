-- ===== src/Download/Filters/Spans.antt =====
-- How far the windows of the named periods reach.
use discord_downloader_bot.Prelude.{
  ℕ, ◌+◌, ◌-◌, ◌*◌, ◌%◌, ◌≤◌, ◌<◌, String, ◌≡◌, refl, sym, subst, ap, arith, ltb, Bool, true, false,
  if◌then◌else◌,
}
use discord_downloader_bot.Datetime.{Datetime, absolute, day_micros, to_ordinal, weekday}
use discord_downloader_bot.World.{Result, ok, raised, value_error}
use discord_downloader_bot.Raise.{bind-ok}
use discord_downloader_bot.Download.Filters.Starts.{
  minus-days, start_of_day-le, start_of_week_lem, start_of_month-le, start_of_month-near, minus-day,
  start_of_month-midnight,
}
use discord_downloader_bot.Download.Filters.Windows.{IsWindow, resolve_named_period-IsWindow}
use discord_downloader_bot.Download.Filters.Period.{
  minus, days, start_of_day, start_of_week, start_of_month, start_of_year, previous_month_start,
  previous_year_start, resolve_named_period,
}

-- `NAMED_PERIODS`
pub data Period : Type 0 where
  today yesterday this_week last_week this_month last_month this_year last_year : Period

abbrev pub period_name : Period → String
period_name today = "today"
period_name yesterday = "yesterday"
period_name this_week = "this-week"
period_name last_week = "last-week"
period_name this_month = "this-month"
period_name last_month = "last-month"
period_name this_year = "this-year"
period_name last_year = "last-year"

abbrev pub first_of : ℕ → ℕ → Datetime
first_of year month = record { year = year; month = month; day = 1; micros = 0 }

-- What a calendar says of each period.
abbrev pub Spans : Period → Datetime → Datetime → Datetime → Type 0
Spans today now after before = (to_ordinal after ≡ to_ordinal now) × (before ≡ now)
Spans yesterday now after before =
    (to_ordinal after + 1 ≡ to_ordinal now) × (absolute before ≡ absolute after + day_micros)
Spans this_week now after before =
    (weekday after ≡ 0) × (absolute now < absolute after + 7 * day_micros) × (before ≡ now)
Spans last_week now after before =
    (weekday after ≡ 0)
    × (weekday before ≡ 0)
    × (absolute before ≡ absolute after + 7 * day_micros)
    × (absolute now < absolute before + 7 * day_micros)
Spans this_month now after before = (after ≡ first_of now.year now.month) × (before ≡ now)
Spans last_month now after before =
    (after.day ≡ 1)
    × (absolute after < absolute before)
    × (absolute before ≤ absolute after + 31 * day_micros)
    × (before ≡ first_of now.year now.month)
Spans this_year now after before = (after ≡ first_of now.year 1) × (before ≡ now)
Spans last_year now after before =
    (after ≡ first_of (now.year - 1) 1) × (2 ≤ now.year) × (before ≡ first_of now.year 1)

moved :
    (P : Datetime → Datetime → Type 0) (a b after before : Datetime)
    → ◌≡◌ {A = Result (Datetime × Datetime)} (ok (a, b)) (ok (after, before))
    → P a b
    → P after before
moved P a b after before e h =
    let first : a ≡ after = cc in
    let second : b ≡ before = cc in
    subst (λ (x : Datetime). P x before) first (subst (λ (x : Datetime). P a x) second h)

-- Whole days taken from a midnight.
module _ (now : Datetime) (in_day : now.micros < day_micros) where
  day_before :
      (t : Datetime) (n : ℕ)
      → minus (start_of_day now) (days n) ≡ ok t
      → (to_ordinal t + n ≡ to_ordinal now)
        × (absolute t + n * day_micros ≡ absolute (start_of_day now))
        × (absolute now < absolute (start_of_day now) + day_micros)
        × (t.micros ≡ 0)
  unfolding absolute start_of_day
  day_before t n e =
      let (sum, _, micros, _) = minus-days (start_of_day now) t n (start_of_day-le now).1 e in
      (omega (arith, sum, micros), sum, omega arith, micros)

  monday :
      (t : Datetime)
      → start_of_week now ≡ ok t
      → (weekday t ≡ 0)
        × (absolute now < absolute t + 7 * day_micros)
        × (absolute t % day_micros ≡ 0)
  unfolding start_of_week weekday
  monday t e =
      let (ordinal, sum, below, _) = day_before t ((to_ordinal now + 6) % 7) e in
      (omega (arith, ordinal), omega (arith, sum, below), (start_of_week_lem now t e).2)

  -- Seven days from a Monday.
  week_before :
      (week t : Datetime)
      → week.micros ≡ 0
      → weekday week ≡ 0
      → minus week (days 7) ≡ ok t
      → (weekday t ≡ 0) × (absolute week ≡ absolute t + 7 * day_micros)
  unfolding weekday absolute
  week_before week t midnight first e =
      let (sum, _, micros, _) = minus-days week t 7 (omega (arith, midnight)) e in
      (omega (arith, sum, micros, midnight, first), omega (arith, sum))

  year_before :
      (t : Datetime)
      → previous_year_start now ≡ ok t
      → (t ≡ first_of (now.year - 1) 1) × (2 ≤ now.year)
  unfolding previous_year_start
  year_before t e = split (ltb now.year 2) refl e
    where
      split :
          (b : Bool)
          → ltb now.year 2 ≡ b
          → ◌≡◌ {A = Result Datetime}
              (if b then raised value_error else ok (first_of (now.year - 1) 1))
              (ok t)
          → (t ≡ first_of (now.year - 1) 1) × (2 ≤ now.year)
      split true q r = cc
      split false q r = (cc, ground (arith, q))

  -- The first of the month before starts earlier, by no more than a month has days.
  month_before :
      (t : Datetime)
      → previous_month_start now ≡ ok t
      → (t.day ≡ 1)
        × (absolute t < absolute (start_of_month now))
        × (absolute (start_of_month now) ≤ absolute t + 31 * day_micros)
  unfolding previous_month_start start_of_month start_of_day
  month_before t e =
      let (last_day, made, found) = bind-ok (minus (start_of_month now) (days 1)) _ t e in
      let same : start_of_month last_day ≡ t = cc in
      let (sum, day, micros, _) =
        minus-days (start_of_month now) last_day 1 (start_of_month-midnight now) made in
      let le = start_of_month-le last_day day in
      let near =
        start_of_month-near last_day day (minus-day (start_of_month now) last_day (days 1) made) in
      (
        ap (λ (x : Datetime). x.day) (sym same),
        subst (λ (x : Datetime). absolute x < absolute (start_of_month now)) same
            (omega (arith, sum, le)),
        subst (λ (x : Datetime). absolute (start_of_month now) ≤ absolute x + 31 * day_micros) same
            (omega (arith, sum, near, micros)),
      )

  spans :
      (p : Period) (after before : Datetime)
      → resolve_named_period (period_name p) now ≡ ok (after, before)
      → Spans p now after before
  unfolding resolve_named_period to_ordinal
  spans today after before e =
      moved (Spans today now) (start_of_day now) now after before e (refl, refl)
  spans yesterday after before e =
      let (t, f, g) = bind-ok (minus (start_of_day now) (days 1)) _ _ e in
      let (ordinal, sum, _, _) = day_before t 1 f in
      moved (Spans yesterday now) t (start_of_day now) after before g
        (ordinal, sym (omega (arith, sum)))
  spans this_week after before e =
      let (t, f, g) = bind-ok (start_of_week now) _ _ e in
      let (first, below, _) = monday t f in
      moved (Spans this_week now) t now after before g (first, below, refl)
  spans last_week after before e =
      let (week, f, g) = bind-ok (start_of_week now) _ _ e in
      let (t, k, l) = bind-ok (minus week (days 7)) _ _ g in
      let (first, below, _) = monday week f in
      let (before_first, sum) = week_before week t (start_of_week_lem now week f).1 first k in
      moved (Spans last_week now) t week after before l (before_first, first, sum, below)
  spans this_month after before e =
      moved (Spans this_month now) (start_of_month now) now after before e (refl, refl)
  spans last_month after before e =
      let (t, f, g) = bind-ok (previous_month_start now) _ _ e in
      let (day, less, near) = month_before t f in
      moved (Spans last_month now) t (start_of_month now) after before g (day, less, near, refl)
  spans this_year after before e =
      moved (Spans this_year now) (start_of_year now) now after before e (refl, refl)
  spans last_year after before e =
      let (t, f, g) = bind-ok (previous_year_start now) _ _ e in
      let (made, later) = year_before t f in
      moved (Spans last_year now) t (start_of_year now) after before g (made, later, refl)

  -- For a time within a day whose number is at least 1, the window of each named period starts at
  -- midnight, no later than it ends, ends by the time, and is the calendar's: yesterday is the day
  -- before, weeks start on a Monday and last-week has seven days, months start on their first day, this-
  -- month starts and last-month ends at the first of the month of the time, last-month starts at the
  -- first of a month that is earlier by at most 31 days, which is that of the month before, this-year
  -- and last-year meet at the first of January of the year of the time, and last-year starts at that of
  -- the year before.
  pub resolve_named_period-Spans :
      (p : Period) (after before : Datetime)
      → 1 ≤ now.day
      → resolve_named_period (period_name p) now ≡ ok (after, before)
      → IsWindow now after before × Spans p now after before
  resolve_named_period-Spans p after before day e =
      (resolve_named_period-IsWindow (period_name p) now after before day e, spans p after before e)
