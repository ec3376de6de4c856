-- ===== src/Download/RateLimit/Bounds.antt =====
-- The bucket of a guild: bounds, eviction.
use discord_downloader_bot.Prelude.{
  ℕ, ◌+◌, ◌-◌, ◌*◌, ◌/◌, ◌≤◌, ◌<◌, ◌≡◌, max, Option, none, some, arith, ltb, ltb→lt, Bool-cases,
  inl, inr,
}
use discord_downloader_bot.World.{Bucket, Result, ok, raised}
use discord_downloader_bot.Download.RateLimit.Bucket.{
  Limits, Verdict, token, ttl_seconds, refilled, balance, spend, credit,
}

-- A stored bucket holds at most the capacity.
abbrev pub IsBounded : Limits → Bucket → Type 0
IsBounded l b = b.tokens ≤ l.capacity * token

pub balance-le : (l : Limits) (b : Option Bucket) (now : ℕ) → balance l b now ≤ l.capacity * token
unfolding balance
balance-le l none now = omega arith
balance-le l (some b) now = omega arith

-- The bucket that a decision writes, or that a refund writes, is bounded.
abbrev pub DecidesBounded : Limits → Result (Bucket × Verdict) → Type 0
DecidesBounded l (ok (b, v)) = IsBounded l b
DecidesBounded l (raised e) = Unit

abbrev pub CreditsBounded : Limits → Option Bucket → Type 0
CreditsBounded l none = Unit
CreditsBounded l (some b) = IsBounded l b

-- Whatever was stored, what `acquire` and `refund` write holds at most the capacity.
pub writes-IsBounded :
    (l : Limits) (b : Option Bucket) (now : ℕ)
    → DecidesBounded l (spend l b now) × CreditsBounded l (credit l b now)
unfolding spend credit
writes-IsBounded l b now = (ground (arith, balance-le l b now), credited b)
  where
    credited : (o : Option Bucket) → CreditsBounded l (credit l o now)
    credited none = tt
    credited (some o) = ground arith

mul-le-mul_right_of : (a b r : ℕ) → b ≤ a → b * r ≤ a * r
mul-le-mul_right_of a b r h = grind arith

million : (t r : ℕ) → t * 1000000 * r ≡ 1000000 * (t * r)
million t r = omega arith

full_small : (c r : ℕ) → 1 ≤ r → c < r → c ≤ 3600 * r
full_small c r h k = omega arith

full_twice : (c r : ℕ) → 1 ≤ r → r ≤ c → c ≤ c / r * 2 * r
full_twice c r h k = grind arith

ttl_bounds :
    (l : Limits)
    → 1 ≤ l.refill_per_hour
    → (3600 ≤ ttl_seconds l) × (l.capacity * 3600 / l.refill_per_hour * 2 ≤ ttl_seconds l)
unfolding ttl_seconds
ttl_bounds l rate =
    let same : max l.refill_per_hour 1 ≡ l.refill_per_hour = omega arith in
    rw same (omega arith, omega arith)

-- The time to live is enough to fill a bucket.
full_within_ttl :
    (l : Limits) → 1 ≤ l.refill_per_hour → l.capacity * 3600 ≤ ttl_seconds l * l.refill_per_hour
full_within_ttl l rate = elim (Bool-cases (ltb c r)) [
  | inl less ↦ omega (
    arith,
    full_small c r rate (ltb→lt c r less),
    mul-le-mul_right_of (ttl_seconds l) 3600 r (ttl_bounds l rate).0,
  )
  | inr more ↦ omega (
    arith,
    full_twice c r rate (ground arith),
    mul-le-mul_right_of (ttl_seconds l) (c / r * 2) r (ttl_bounds l rate).1,
  )
]
  where
    c : ℕ
    c = l.capacity * 3600

    r : ℕ
    r = l.refill_per_hour

-- A bucket that Redis has let expire answers as the stored one would have: after the time to live a
-- bucket is full again, at any rate but 0.
pub eviction_is_invisible :
    (l : Limits) (b : Bucket) (now : ℕ)
    → 1 ≤ l.refill_per_hour
    → b.last_refill + ttl_seconds l * 1000000 ≤ now
    → balance l (some b) now ≡ balance l none now
unfolding balance refilled
eviction_is_invisible l b now rate old =
    let full = full_within_ttl l rate in
    let grown =
      mul-le-mul_right_of (now - b.last_refill) (ttl_seconds l * 1000000) l.refill_per_hour
        (omega arith) in
    omega (arith, full, grown, million (ttl_seconds l) l.refill_per_hour)
