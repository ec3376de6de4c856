-- ===== src/Download/RateLimit/Bucket.antt =====
-- The arithmetic of download/ratelimit.py. Time is in microseconds, and tokens are counted in units
-- of which `token` make one: at a rate of r tokens an hour a microsecond adds r units, exact
-- numbers in place of the code's floats, whose rounding is not modelled.
use discord_downloader_bot.Prelude.{
  ℕ, ◌+◌, ◌-◌, ◌*◌, ◌/◌, Option, none, some, min, max, leb, ◌==◌, if◌then◌else◌,
}
use discord_downloader_bot.World.{Bucket, Result, ok, raised, zero_division_error}

-- 3600 * 10^6 units
abbrev pub token : ℕ
token = 3600000000

-- `capacity` and `refill_per_hour`
pub record Limits : Type 0 where
  pub capacity : ℕ
  pub refill_per_hour : ℕ

-- `_ttl_seconds`
unfoldable pub ttl_seconds : Limits → ℕ
ttl_seconds l = max 3600 (l.capacity * 3600 / max l.refill_per_hour 1 * 2)

-- The balance of a stored bucket at `now`. A clock that went back adds nothing: `-` stops at 0.
unfoldable pub refilled : Limits → Bucket → ℕ → ℕ
refilled l b now = min (l.capacity * token) (b.tokens + (now - b.last_refill) * l.refill_per_hour)

-- A bucket that Redis does not hold is full.
unfoldable pub balance : Limits → Option Bucket → ℕ → ℕ
unfolding refilled
balance l none now = l.capacity * token
balance l (some b) now = refilled l b now

-- The wait until one token is there, `num / den` microseconds.
pub record Wait : Type 0 where
  pub num : ℕ
  pub den : ℕ

pub data Verdict : Type 0 where
  allowed : Verdict
  retry_after : Wait → Verdict

-- The decision of `acquire`: the bucket that it writes, and its answer. With a rate of 0 the wait is a
-- division by zero.
unfoldable pub spend : Limits → Option Bucket → ℕ → Result (Bucket × Verdict)
unfolding balance
spend l b now =
    let tokens = balance l b now in
    if leb token tokens
    then ok (record { tokens = tokens - token; last_refill = now }, allowed)
    else if l.refill_per_hour == 0
    then raised zero_division_error
    else ok (
      record { tokens = tokens; last_refill = now },
      retry_after (record { num = token - tokens; den = l.refill_per_hour }),
    )

-- The decision of `refund`: `none` writes nothing.
unfoldable pub credit : Limits → Option Bucket → ℕ → Option Bucket
unfolding refilled
credit l none now = none
credit l (some b) now =
    let effective = refilled l b now in
    if leb (l.capacity * token) effective
    then none
    else some (record { tokens = min (l.capacity * token) (effective + token); last_refill = now })
