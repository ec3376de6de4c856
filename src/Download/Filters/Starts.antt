-- ===== src/Download/Filters/Starts.antt =====
-- Where days, weeks, months and years start, against the calendar.
use discord_downloader_bot.Prelude.{
  ℕ, ◌+◌, ◌-◌, ◌*◌, ◌/◌, ◌%◌, ◌≤◌, ◌≡◌, refl, subst, ◌∙◌, Bool, true, false, ltb, arith,
  if◌then◌else◌,
}
use discord_downloader_bot.Datetime.{
  Datetime, absolute, day_micros, to_ordinal, ymd_to_ordinal, days_before_year, from_ordinal,
  weekday,
}
use discord_downloader_bot.Datetime.Civil.{from_ordinal_lem, absolute-from_ordinal}
use discord_downloader_bot.Datetime.Days.{from_ordinal-day}
use discord_downloader_bot.World.{overflow_error, ok, raised}
use discord_downloader_bot.Raise.{bind-ok, if-ok}
use discord_downloader_bot.Download.Filters.Period.{
  minus, days, start_of_day, start_of_week, start_of_month, start_of_year, previous_month_start,
  previous_year_start,
}

-- What `t - timedelta(seconds=s)` gives: an earlier instant, and midnight where whole days are taken from
-- midnight.
abbrev pub IsMinus : ℕ → ℕ → Datetime → Type 0
IsMinus a s t =
    (absolute t + s * 1000000 ≡ a) × (1 ≤ t.day) × (t.micros ≡ (a - s * 1000000) % day_micros)

IsMinus-at :
    (a s : ℕ)
    → s * 1000000 + day_micros ≤ a
    → IsMinus a s (from_ordinal ((a - s * 1000000) / day_micros) ((a - s * 1000000) % day_micros))
IsMinus-at a s h =
    let n = (a - s * 1000000) / day_micros in
    let m = (a - s * 1000000) % day_micros in
    let (_, day, micros) = from_ordinal_lem n m (omega arith) in
    (omega (arith, absolute-from_ordinal n m (omega arith)), day, micros)

pub minus-IsMinus : (t t' : Datetime) (s : ℕ) → minus t s ≡ ok t' → IsMinus (absolute t) s t'
unfolding minus
minus-IsMinus t t' s e = split (ltb (absolute t) (s * 1000000 + day_micros)) refl e
  where
    split :
        (b : Bool)
        → ltb (absolute t) (s * 1000000 + day_micros) ≡ b
        → (if b
            then raised overflow_error
            else ok (
                from_ordinal
                  ((absolute t - s * 1000000) / day_micros)
                  ((absolute t - s * 1000000) % day_micros)))
          ≡ ok t'
        → IsMinus (absolute t) s t'
    split true h q = cc
    split false h q =
        let made : from_ordinal ((absolute t - s * 1000000) / day_micros)
              ((absolute t - s * 1000000) % day_micros)
            ≡ t' =
          cc in
        subst (IsMinus (absolute t) s) made (IsMinus-at (absolute t) s (ground arith))

pub minus-day : (t t' : Datetime) (s : ℕ) → minus t s ≡ ok t' → t'.day ≤ 31
unfolding minus
minus-day t t' s e =
    let left = absolute t - s * 1000000 in
    if-ok (ltb (absolute t) (s * 1000000 + day_micros)) (λ q. cc)
      (λ q.
        let made : from_ordinal (left / day_micros) (left % day_micros) ≡ t' = cc in
        subst (λ (x : Datetime). x.day ≤ 31) made
          (from_ordinal-day (left / day_micros) (left % day_micros)))
      e

module _ (t : Datetime) where
  pub start_of_month-near :
      1 ≤ t.day → t.day ≤ 31 → absolute t ≤ absolute (start_of_month t) + 30 * day_micros + t.micros
  unfolding start_of_month start_of_day absolute to_ordinal ymd_to_ordinal
  start_of_month-near h k = omega arith

  pub start_of_day-le :
      (absolute (start_of_day t) ≤ absolute t) × (absolute (start_of_day t) % day_micros ≡ 0)
  unfolding start_of_day absolute
  start_of_day-le = (omega arith, omega arith)

  pub start_of_month-le : 1 ≤ t.day → absolute (start_of_month t) ≤ absolute t
  unfolding start_of_month start_of_day absolute to_ordinal ymd_to_ordinal
  start_of_month-le h = omega arith

  pub start_of_year-le : 1 ≤ t.day → absolute (start_of_year t) ≤ absolute t
  unfolding start_of_year start_of_day absolute to_ordinal ymd_to_ordinal
  start_of_year-le h = omega arith

  pub midnights :
      ((start_of_day t).micros ≡ 0)
      × ((start_of_month t).micros ≡ 0)
      × ((start_of_year t).micros ≡ 0)
  unfolding start_of_year start_of_month start_of_day
  midnights = (refl, refl, refl)

pub minus-days :
    (t t' : Datetime) (n : ℕ)
    → absolute t % day_micros ≡ 0
    → minus t (days n) ≡ ok t'
    → (absolute t' + n * day_micros ≡ absolute t)
      × (1 ≤ t'.day)
      × (t'.micros ≡ 0)
      × (absolute t' % day_micros ≡ 0)
minus-days t t' n midnight e =
    let (less, day, micros) = minus-IsMinus t t' (days n) e in
    let sum : absolute t' + n * day_micros ≡ absolute t = omega (arith, less) in
    (sum, day, micros ∙ omega (arith, less), omega (arith, sum))

pub start_of_week_lem :
    (now t : Datetime)
    → start_of_week now ≡ ok t
    → (absolute t ≤ absolute now) × (t.micros ≡ 0) × (absolute t % day_micros ≡ 0)
unfolding start_of_week
start_of_week_lem now t e =
    let (le, midnight) = start_of_day-le now in
    let (sum, _, micros, mid) = minus-days (start_of_day now) t (weekday now) midnight e in
    (omega (arith, sum), micros, mid)

pub start_of_month-midnight : (t : Datetime) → absolute (start_of_month t) % day_micros ≡ 0
unfolding start_of_month start_of_day absolute
start_of_month-midnight t = omega arith

pub previous_month_start_lem :
    (now t : Datetime)
    → previous_month_start now ≡ ok t
    → (absolute t ≤ absolute (start_of_month now)) × (t.micros ≡ 0)
unfolding previous_month_start
previous_month_start_lem now t e =
    let (last_day, made, found) =
      bind-ok (minus (start_of_month now) (days 1)) (λ last_day. ok (start_of_month last_day)) t
        e in
    let (sum, day, _, _) =
      minus-days (start_of_month now) last_day 1 (start_of_month-midnight now) made in
    let same : start_of_month last_day ≡ t = cc in
    subst (λ (x : Datetime). (absolute x ≤ absolute (start_of_month now)) × (x.micros ≡ 0)) same
      (omega (arith, sum, start_of_month-le last_day day), (midnights last_day).1)

year_before-le :
    (t : Datetime)
    → absolute (record (start_of_year t) { year = t.year - 1 }) ≤ absolute (start_of_year t)
unfolding start_of_year start_of_day absolute to_ordinal ymd_to_ordinal days_before_year
year_before-le t = omega arith

pub previous_year_start_lem :
    (now t : Datetime)
    → previous_year_start now ≡ ok t
    → (absolute t ≤ absolute (start_of_year now)) × (t.micros ≡ 0)
unfolding previous_year_start
previous_year_start_lem now t e =
    if-ok (ltb now.year 2) (λ q. cc)
      (λ q.
        let same : record (start_of_year now) { year = now.year - 1 } ≡ t = cc in
        subst (λ (x : Datetime). (absolute x ≤ absolute (start_of_year now)) × (x.micros ≡ 0)) same
          (year_before-le now, (midnights now).2))
      e
