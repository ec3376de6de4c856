-- ===== src/Datetime/Civil.antt =====
-- The calendar: a day number is the number of the day that is made of it.
use discord_downloader_bot.Prelude.{
  ℕ, zero, suc, ◌+◌, ◌-◌, ◌*◌, ◌/◌, ◌%◌, ◌≤◌, ◌<◌, ◌≡◌, refl, ap, ◌∙◌, Bool, true, false, not, ◌&&◌,
  ◌||◌, ltb, ◌==◌, arith, if◌then◌else◌, Bool-cases, ==_iff, inl, inr,
}
use discord_downloader_bot.Datetime.{
  Datetime, day_micros, is_leap, days_before_month, days_before_year, ymd_to_ordinal, to_ordinal,
  month_day, from_ordinal, absolute,
}

-- The days before a year, by the cycles of 400, 100, 4 and 1 years.
days_before_cycles :
    (a b c d : ℕ)
    → b < 4
    → c < 25
    → d < 4
    → days_before_year (a * 400 + b * 100 + c * 4 + d + 1)
      ≡ a * 146097 + b * 36524 + c * 1461 + d * 365
unfolding days_before_year
days_before_cycles a b c d hb hc hd = omega arith

is_leap-cycles :
    (a b c d : ℕ)
    → b < 4
    → c < 25
    → d < 4
    → is_leap (a * 400 + b * 100 + c * 4 + d + 1) ≡ (d == 3 && (not (c == 24) || b == 3))
unfolding is_leap
is_leap-cycles a b c d hb hc hd = ground arith

abbrev leap_day : ℕ → Bool → ℕ
leap_day month leap = if ltb 2 month && leap then 1 else 0

-- A day of the year, counted from 0, and the month and day of it.
abbrev IsDay : ℕ → Bool → Datetime → Type 0
IsDay n leap t = (1 ≤ t.day) × (days_before_month t.month + leap_day t.month leap + t.day ≡ n + 1)

at_month :
    (m year n micros : ℕ) (leap : Bool)
    → (n + 50) / 32 ≡ m
    → n < 365 + (if leap then 1 else 0)
    → IsDay n leap (month_day year leap n micros)
at_month zero year n micros leap e h = ground arith
at_month (suc zero) year n micros leap e h = rw e (ground arith)
at_month (suc (suc zero)) year n micros leap e h = rw e (ground arith)
at_month (suc (suc (suc zero))) year n micros leap e h = rw e (ground arith)
at_month (suc (suc (suc (suc zero)))) year n micros leap e h = rw e (ground arith)
at_month (suc (suc (suc (suc (suc zero))))) year n micros leap e h = rw e (ground arith)
at_month (suc (suc (suc (suc (suc (suc zero)))))) year n micros leap e h = rw e (ground arith)
at_month (suc (suc (suc (suc (suc (suc (suc zero))))))) year n micros leap e h = rw e (ground arith)
at_month (suc (suc (suc (suc (suc (suc (suc (suc zero)))))))) year n micros leap e h =
    rw e (ground arith)
at_month (suc (suc (suc (suc (suc (suc (suc (suc (suc zero))))))))) year n micros leap e h =
    rw e (ground arith)
at_month (suc (suc (suc (suc (suc (suc (suc (suc (suc (suc zero)))))))))) year n micros leap e h =
    rw e (ground arith)
at_month (suc (suc (suc (suc (suc (suc (suc (suc (suc (suc (suc zero))))))))))) year n micros leap e
      h =
    rw e (ground arith)
at_month (suc (suc (suc (suc (suc (suc (suc (suc (suc (suc (suc (suc zero)))))))))))) year n micros
      leap e h =
    rw e (ground arith)
at_month (suc (suc (suc (suc (suc (suc (suc (suc (suc (suc (suc (suc (suc m))))))))))))) year n
      micros leap e h =
    ground arith

month_day-IsDay :
    (year n micros : ℕ) (leap : Bool)
    → n < 365 + (if leap then 1 else 0)
    → IsDay n leap (month_day year leap n micros)
month_day-IsDay year n micros leap h = at_month ((n + 50) / 32) year n micros leap refl h

month_day-same :
    (year n micros : ℕ) (leap : Bool)
    → let t = month_day year leap n micros in (t.year ≡ year) × (t.micros ≡ micros)
month_day-same year n micros leap =
    split (ltb n (days_before_month ((n + 50) / 32) + leap_day ((n + 50) / 32) leap)) refl
  where
    split :
        (b : Bool)
        → ltb n (days_before_month ((n + 50) / 32) + leap_day ((n + 50) / 32) leap) ≡ b
        → let t = month_day year leap n micros in (t.year ≡ year) × (t.micros ≡ micros)
    split true e = rw e (refl, refl)
    split false e = rw e (refl, refl)

-- The day number of the last day of a year of a cycle.
year_end :
    (a b c d : ℕ)
    → b < 4
    → c < 25
    → d < 4
    → (d == 3 && (not (c == 24) || b == 3)) ≡ true
    → ymd_to_ordinal (a * 400 + b * 100 + c * 4 + d + 1) 12 31
      ≡ a * 146097 + b * 36524 + c * 1461 + d * 365 + 366
unfolding ymd_to_ordinal
year_end a b c d hb hc hd leap =
    rw (is_leap-cycles a b c d hb hc hd, leap) (omega (arith, days_before_cycles a b c d hb hc hd))

-- The day number of a day of a year.
to_ordinal-IsDay :
    (t : Datetime) (year n : ℕ) (leap : Bool)
    → t.year ≡ year
    → is_leap year ≡ leap
    → IsDay n leap t
    → to_ordinal t ≡ days_before_year year + n + 1
unfolding to_ordinal ymd_to_ordinal
to_ordinal-IsDay t year n leap e l (one, found) = rw (e, l) (omega (arith, found))

day_in_year :
    (year n micros : ℕ) (leap : Bool)
    → is_leap year ≡ leap
    → n < 365
    → let t = month_day year leap n micros in
      (to_ordinal t ≡ days_before_year year + n + 1) × (1 ≤ t.day) × (t.micros ≡ micros)
day_in_year year n micros leap l h =
    let day = month_day-IsDay year n micros leap (omega arith) in
    let same = month_day-same year n micros leap in
    (to_ordinal-IsDay (month_day year leap n micros) year n leap same.0 l day, day.0, same.1)

-- A day number that is split into cycles.
record Cycles (ordinal a b c d r : ℕ) : Type 0 where
  pub whole : ordinal ≡ a * 146097 + b * 36524 + c * 1461 + d * 365 + r + 1
  pub bounds : (b ≤ 4) × (c < 25) × (d ≤ 4) × (r < 365)
  -- The last day of 400 years, and that of 4.
  pub last_of_400 : b ≡ 4 → (c ≡ 0) × (d ≡ 0) × (r ≡ 0)
  pub last_of_4 : d ≡ 4 → (r ≡ 0) × ((c ≡ 24) → b ≡ 3)

cycles :
    (ordinal : ℕ)
    → 1 ≤ ordinal
    → let n = ordinal - 1 in
      Cycles ordinal
        (n / 146097)
        (n % 146097 / 36524)
        (n % 146097 % 36524 / 1461)
        (n % 146097 % 36524 % 1461 / 365)
        (n % 146097 % 36524 % 1461 % 365)
cycles ordinal pos = record {
  whole = omega arith;
  bounds = (omega arith, omega arith, omega arith, omega arith);
  last_of_400 = λ e. (omega arith, omega arith, omega arith);
  last_of_4 = λ e. (omega arith, λ f. omega arith);
}

-- The day that `from_ordinal` makes of the cycles.
day_of : ℕ → ℕ → ℕ → ℕ → ℕ → ℕ → Datetime
day_of a b c d r micros =
    let year = a * 400 + b * 100 + c * 4 + d + 1 in
    if d == 4 || b == 4
    then record { year = year - 1; month = 12; day = 31; micros = micros }
    else month_day year (d == 3 && (not (c == 24) || b == 3)) r micros

leap_if : (c b : ℕ) → (c ≡ 24 → b ≡ 3) → (not (c == 24) || b == 3) ≡ true
leap_if c b h = elim (Bool-cases (c == 24)) [
  | inl x ↦ rw (x, h ((==_iff c 24).0 x)) refl
  | inr x ↦ rw x refl
]

to_ordinal_at :
    (year micros : ℕ)
    → to_ordinal (record { year = year; month = 12; day = 31; micros = micros })
      ≡ ymd_to_ordinal year 12 31
unfolding to_ordinal
to_ordinal_at year micros = refl

day_of_lem :
    (ordinal a b c d r micros : ℕ)
    → Cycles ordinal a b c d r
    → let t = day_of a b c d r micros in
      (to_ordinal t ≡ ordinal) × (1 ≤ t.day) × (t.micros ≡ micros)
unfolding day_of
day_of_lem ordinal a b c d r micros k = elim (Bool-cases (b == 4)) [
  | inl x ↦ rw (x, or_true (d == 4)) (end_of_400 ((==_iff b 4).0 x), omega arith, refl)
  | inr x ↦ elim (Bool-cases (d == 4)) [
    | inl y ↦ rw y (end_of_4 ((==_iff d 4).0 y) (below b k.bounds.0 x), omega arith, refl)
    | inr y ↦ rw (x, y) (other (below b k.bounds.0 x) (below d k.bounds.2 y))
  ]
]
  where
    or_true : (q : Bool) → (q || true) ≡ true
    or_true true = refl
    or_true false = refl

    below : (m : ℕ) → m ≤ 4 → (m == 4) ≡ false → m < 4
    below m h e = ground arith

    end_of_400 :
        b ≡ 4
        → to_ordinal (record {
          year = a * 400 + b * 100 + c * 4 + d + 1 - 1;
          month = 12;
          day = 31;
          micros = micros;
        })
          ≡ ordinal
    end_of_400 e =
        let (no_c, no_d, no_r) = k.last_of_400 e in
        to_ordinal_at (a * 400 + b * 100 + c * 4 + d + 1 - 1) micros
        ∙ ap (λ y. ymd_to_ordinal y 12 31) (omega arith)
        ∙ year_end a 3 24 3 (omega arith) (omega arith) (omega arith) refl
        ∙ omega (arith, k.whole)

    end_of_4 :
        d ≡ 4
        → b < 4
        → to_ordinal (record {
          year = a * 400 + b * 100 + c * 4 + d + 1 - 1;
          month = 12;
          day = 31;
          micros = micros;
        })
          ≡ ordinal
    end_of_4 e h =
        let (no_r, at_24) = k.last_of_4 e in
        to_ordinal_at (a * 400 + b * 100 + c * 4 + d + 1 - 1) micros
        ∙ ap (λ y. ymd_to_ordinal y 12 31) (omega arith)
        ∙ year_end a b c 3 h k.bounds.1 (omega arith) (leap_if c b at_24)
        ∙ omega (arith, k.whole)

    other :
        b < 4
        → d < 4
        → let t =
            month_day
              (a * 400 + b * 100 + c * 4 + d + 1)
              (d == 3 && (not (c == 24) || b == 3))
              r
              micros in
          (to_ordinal t ≡ ordinal) × (1 ≤ t.day) × (t.micros ≡ micros)
    other hb hd =
        let found =
          day_in_year (a * 400 + b * 100 + c * 4 + d + 1) r micros
            (d == 3 && (not (c == 24) || b == 3)) (is_leap-cycles a b c d hb k.bounds.1 hd)
            k.bounds.3 in
        (
          found.0 ∙ omega (arith, days_before_cycles a b c d hb k.bounds.1 hd, k.whole),
          found.1,
          found.2,
        )

-- `from_ordinal` finds the day that has the number.
pub from_ordinal_lem :
    (ordinal micros : ℕ)
    → 1 ≤ ordinal
    → let t = from_ordinal ordinal micros in
      (to_ordinal t ≡ ordinal) × (1 ≤ t.day) × (t.micros ≡ micros)
unfolding from_ordinal day_of
from_ordinal_lem ordinal micros pos = day_of_lem ordinal _ _ _ _ _ micros (cycles ordinal pos)

-- The instant that `from_ordinal` makes.
pub absolute-from_ordinal :
    (ordinal micros : ℕ)
    → 1 ≤ ordinal
    → absolute (from_ordinal ordinal micros) ≡ ordinal * day_micros + micros
unfolding absolute
absolute-from_ordinal ordinal micros pos =
    let (found, _, same) = from_ordinal_lem ordinal micros pos in rw (found, same) refl
