-- ===== src/Download/Filters/Windows.antt =====
-- The windows of the named periods.
use discord_downloader_bot.Prelude.{◌≤◌, String, ◌≡◌, subst, text_eq, arith}
use discord_downloader_bot.Datetime.{Datetime, absolute}
use discord_downloader_bot.World.{Result, ok}
use discord_downloader_bot.Raise.{bind-ok, if-ok}
use discord_downloader_bot.Download.Filters.Starts.{
  minus-days, start_of_day-le, start_of_month-le, start_of_year-le, midnights, start_of_week_lem,
  previous_month_start_lem, previous_year_start_lem,
}
use discord_downloader_bot.Download.Filters.Period.{
  minus, days, start_of_day, start_of_week, start_of_month, start_of_year, resolve_named_period,
}

-- A window ends by now, starts at midnight, and starts no later than it ends.
pub record IsWindow (now after before : Datetime) : Type 0 where
  pub starts : absolute after ≤ absolute before
  pub ends : absolute before ≤ absolute now
  pub midnight : after.micros ≡ 0

module _ (now after before : Datetime) (day : 1 ≤ now.day) where
  IsWindow-of :
      (a b : Datetime)
      → ◌≡◌ {A = Result (Datetime × Datetime)} (ok (a, b)) (ok (after, before))
      → IsWindow now a b
      → IsWindow now after before
  IsWindow-of a b e w =
      let first : a ≡ after = cc in
      let second : b ≡ before = cc in
      subst (λ (x : Datetime). IsWindow now x before) first
        (subst (λ (x : Datetime). IsWindow now a x) second w)

  yesterday_lem :
      (t : Datetime) → minus (start_of_day now) (days 1) ≡ ok t → IsWindow now t (start_of_day now)
  yesterday_lem t e =
      let (le, midnight) = start_of_day-le now in
      let (sum, _, micros, _) = minus-days (start_of_day now) t 1 midnight e in
      record { starts = omega (arith, sum); ends = le; midnight = micros }

  last_week_lem :
      (week t : Datetime)
      → start_of_week now ≡ ok week
      → minus week (days 7) ≡ ok t
      → IsWindow now t week
  last_week_lem week t e f =
      let (le, _, midnight) = start_of_week_lem now week e in
      let (sum, _, micros, _) = minus-days week t 7 midnight f in
      record { starts = omega (arith, sum); ends = le; midnight = micros }

-- Where the day of `now` is at least 1, the window of a named period starts at midnight and no later than it
-- ends, and it ends by now.
pub resolve_named_period-IsWindow :
    (name : String) (now after before : Datetime)
    → 1 ≤ now.day
    → resolve_named_period name now ≡ ok (after, before)
    → IsWindow now after before
unfolding resolve_named_period
resolve_named_period-IsWindow name now after before day =
    let window = IsWindow-of now after before day in
    if-ok (text_eq name "today")
      (λ e. window (start_of_day now) now e (record {
        starts = (start_of_day-le now).0;
        ends = omega arith;
        midnight = (midnights now).0;
      }))
      (if-ok (text_eq name "yesterday")
        (λ e.
          let (t, f, g) = bind-ok _ _ _ e in
          window t (start_of_day now) g (yesterday_lem now after before day t f))
        (if-ok (text_eq name "this-week")
          (λ e.
            let (t, f, g) = bind-ok _ _ _ e in
            let (le, micros, _) = start_of_week_lem now t f in
            window t now g (record { starts = le; ends = omega arith; midnight = micros }))
          (if-ok (text_eq name "last-week")
            (λ e.
              let (week, f, g) = bind-ok _ _ _ e in
              let (t, k, l) = bind-ok _ _ _ g in
              window t week l (last_week_lem now after before day week t f k))
            (if-ok (text_eq name "this-month")
              (λ e. window (start_of_month now) now e (record {
                starts = start_of_month-le now day;
                ends = omega arith;
                midnight = (midnights now).1;
              }))
              (if-ok (text_eq name "last-month")
                (λ e.
                  let (t, f, g) = bind-ok _ _ _ e in
                  let (le, micros) = previous_month_start_lem now t f in
                  window t (start_of_month now) g
                    (record { starts = le; ends = start_of_month-le now day; midnight = micros }))
                (if-ok (text_eq name "this-year")
                  (λ e. window (start_of_year now) now e (record {
                    starts = start_of_year-le now day;
                    ends = omega arith;
                    midnight = (midnights now).2;
                  }))
                  (if-ok (text_eq name "last-year")
                    (λ e.
                      let (t, f, g) = bind-ok _ _ _ e in
                      let (le, micros) = previous_year_start_lem now t f in
                      window t (start_of_year now) g (record {
                        starts = le;
                        ends = start_of_year-le now day;
                        midnight = micros;
                      }))
                    (λ e. cc))))))))
