-- ===== src/Datetime/Days.antt =====
-- How long a month is.
use discord_downloader_bot.Prelude.{
  ℕ, zero, suc, ◌+◌, ◌-◌, ◌/◌, ◌%◌, ◌≤◌, ◌<◌, ◌≡◌, refl, Bool, true, false, arith, if◌then◌else◌,
}
use discord_downloader_bot.Datetime.{month_day, from_ordinal}

short_at :
    (m year n micros : ℕ) (leap : Bool)
    → (n + 50) / 32 ≡ m
    → n < 365 + (if leap then 1 else 0)
    → (month_day year leap n micros).day ≤ 31
short_at zero year n micros leap e h = ground arith
short_at (suc zero) year n micros leap e h = rw e (ground arith)
short_at (suc (suc zero)) year n micros leap e h = rw e (ground arith)
short_at (suc (suc (suc zero))) year n micros leap e h = rw e (ground arith)
short_at (suc (suc (suc (suc zero)))) year n micros leap e h = rw e (ground arith)
short_at (suc (suc (suc (suc (suc zero))))) year n micros leap e h = rw e (ground arith)
short_at (suc (suc (suc (suc (suc (suc zero)))))) year n micros leap e h = rw e (ground arith)
short_at (suc (suc (suc (suc (suc (suc (suc zero))))))) year n micros leap e h = rw e (ground arith)
short_at (suc (suc (suc (suc (suc (suc (suc (suc zero)))))))) year n micros leap e h =
    rw e (ground arith)
short_at (suc (suc (suc (suc (suc (suc (suc (suc (suc zero))))))))) year n micros leap e h =
    rw e (ground arith)
short_at (suc (suc (suc (suc (suc (suc (suc (suc (suc (suc zero)))))))))) year n micros leap e h =
    rw e (ground arith)
short_at (suc (suc (suc (suc (suc (suc (suc (suc (suc (suc (suc zero))))))))))) year n micros leap e
      h =
    rw e (ground arith)
short_at (suc (suc (suc (suc (suc (suc (suc (suc (suc (suc (suc (suc zero)))))))))))) year n micros
      leap e h =
    rw e (ground arith)
short_at (suc (suc (suc (suc (suc (suc (suc (suc (suc (suc (suc (suc (suc m))))))))))))) year n
      micros leap e h =
    ground arith

day_at :
    (b leap : Bool) (year n micros : ℕ)
    → n < 365
    → (if b
        then record { year = year - 1; month = 12; day = 31; micros = micros }
        else month_day year leap n micros).day
      ≤ 31
day_at true leap year n micros h = omega arith
day_at false leap year n micros h = short_at ((n + 50) / 32) year n micros leap refl (omega arith)

-- No month that `from_ordinal` finds has more than 31 days.
pub from_ordinal-day : (ordinal micros : ℕ) → (from_ordinal ordinal micros).day ≤ 31
unfolding from_ordinal
from_ordinal-day ordinal micros =
    day_at _ _ _ ((ordinal - 1) % 146097 % 36524 % 1461 % 365) micros (omega arith)
