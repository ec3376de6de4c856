-- ===== src/Download/RateLimit/Rate.antt =====
-- The long-run cap on the tokens of a guild, whatever the times of the commands.
use discord_downloader_bot.Prelude.{
  ℕ, ◌+◌, ◌-◌, ◌*◌, ◌≤◌, ◌≡◌, refl, subst, inl, inr, Bool-cases, leb, leb→le, if◌then◌else◌, min,
  Option, none, some, List, [], ◌∷◌, arith,
}
use discord_downloader_bot.Download.RateLimit.Bounds.{balance-le, eviction_is_invisible}
use discord_downloader_bot.World.{Bucket, Result, ok, raised}
use discord_downloader_bot.Download.RateLimit.Bucket.{
  Limits, Verdict, allowed, retry_after, token, ttl_seconds, refilled, balance, spend, credit,
}

-- An `acquire` or a `refund` that commits at a time, and Redis that lets the bucket expire.
pub data Act : Type 0 where
  acquires refunds evicts : ℕ → Act

pub record Tally : Type 0 where
  pub bucket : Option Bucket
  pub granted : ℕ
  pub refunded : ℕ

abbrev on_decision : Tally → Result (Bucket × Verdict) → Tally
on_decision s (ok (b, allowed)) = record s { bucket = some b; granted = s.granted + 1 }
on_decision s (ok (b, retry_after w)) = record s { bucket = some b }
on_decision s (raised e) = s

abbrev on_credit : Tally → Option Bucket → Tally
on_credit s none = s
on_credit s (some b) = record s { bucket = some b; refunded = s.refunded + 1 }

-- Redis drops a bucket no sooner than the time to live after it was written.
abbrev pub dropped : Limits → Option Bucket → ℕ → Option Bucket
dropped l none now = none
dropped l (some b) now = if leb (b.last_refill + ttl_seconds l * 1000000) now then none else some b

-- One commit, or an eviction; a decision that raises commits nothing.
pub step : Limits → Tally → Act → Tally
step l s (acquires now) = on_decision s (spend l s.bucket now)
step l s (refunds now) = on_credit s (credit l s.bucket now)
step l s (evicts now) = record s { bucket = dropped l s.bucket now }

pub run : Limits → Tally → List Act → Tally
run l s [] = s
run l s (a ∷ acts) = run l (step l s a) acts

abbrev pub time_of : Act → ℕ
time_of (acquires now) = now
time_of (refunds now) = now
time_of (evicts now) = now

-- Times do not fall, and stay between the two ends.
abbrev pub Between : ℕ → ℕ → List Act → Type 0
Between from to [] = from ≤ to
Between from to (a ∷ acts) = (from ≤ time_of a) × Between (time_of a) to acts

-- The stored time is not in the future.
abbrev pub IsPast : ℕ → Option Bucket → Type 0
IsPast now none = Unit
IsPast now (some b) = b.last_refill ≤ now

-- The tokens granted and those left at `now` are covered by the capacity, the refunds and the refill
-- since `start`.
record IsCovered (l : Limits) (start now : ℕ) (s : Tally) : Type 0 where
  since : start ≤ now
  past : IsPast now s.bucket
  covered :
      s.granted * token + balance l s.bucket now
      ≤ l.capacity * token + s.refunded * token + (now - start) * l.refill_per_hour

split_span : (a b c r : ℕ) → a ≤ b → b ≤ c → (c - a) * r ≡ (b - a) * r + (c - b) * r
split_span a b c r h k = let e : c - a ≡ (b - a) + (c - b) = omega arith in rw e (omega arith)

IsPast-later : (now later : ℕ) (o : Option Bucket) → now ≤ later → IsPast now o → IsPast later o
IsPast-later now later none h p = tt
IsPast-later now later (some b) h p = omega arith

balance-later :
    (l : Limits) (o : Option Bucket) (now later : ℕ)
    → now ≤ later
    → IsPast now o
    → balance l o later ≤ balance l o now + (later - now) * l.refill_per_hour
unfolding balance refilled
balance-later l none now later h p = omega arith
balance-later l (some b) now later h p =
    omega (arith, split_span b.last_refill now later l.refill_per_hour p h)

later-IsCovered :
    (l : Limits) (start now later : ℕ) (s : Tally)
    → now ≤ later
    → IsCovered l start now s
    → IsCovered l start later s
later-IsCovered l start now later s h c = record {
  since = omega (arith, c.since);
  past = IsPast-later now later s.bucket h c.past;
  covered = omega (
    arith,
    c.covered,
    balance-later l s.bucket now later h c.past,
    split_span start now later l.refill_per_hour c.since h,
  );
}

balance-written :
    (l : Limits) (tokens now : ℕ)
    → balance l (some (record { tokens = tokens; last_refill = now })) now ≤ tokens
unfolding balance refilled
balance-written l tokens now = grind arith

balance-some : (l : Limits) (b : Bucket) (now : ℕ) → balance l (some b) now ≡ refilled l b now
unfolding balance
balance-some l b now = refl

acquire-IsCovered :
    (l : Limits) (start now : ℕ) (s : Tally)
    → IsCovered l start now s
    → IsCovered l start now (on_decision s (spend l s.bucket now))
unfolding spend
acquire-IsCovered l start now s c = ground (
  arith,
  balance-written l (balance l s.bucket now) now,
  balance-written l (balance l s.bucket now - token) now,
)

refund-IsCovered :
    (l : Limits) (start now : ℕ) (s : Tally) (o : Option Bucket)
    → s.bucket ≡ o
    → IsCovered l start now s
    → IsCovered l start now (on_credit s (credit l o now))
unfolding credit
refund-IsCovered l start now s none e c = c
refund-IsCovered l start now s (some b) e c = ground (
  arith,
  balance-some l b now,
  balance-written l (min (l.capacity * token) (refilled l b now + token)) now,
)

evict-IsCovered :
    (l : Limits) (start now : ℕ) (s : Tally) (o : Option Bucket)
    → 1 ≤ l.refill_per_hour
    → s.bucket ≡ o
    → IsCovered l start now s
    → IsCovered l start now (record s { bucket = dropped l o now })
evict-IsCovered l start now s none rate e c = record {
  since = c.since;
  past = tt;
  covered =
      subst
        (λ x.
          s.granted * token + balance l x now
          ≤ l.capacity * token + s.refunded * token + (now - start) * l.refill_per_hour)
        e c.covered;
}
evict-IsCovered l start now s (some b) rate e c =
    elim (Bool-cases (leb (b.last_refill + ttl_seconds l * 1000000) now)) [
      | inl old ↦
          let full = eviction_is_invisible l b now rate (leb→le _ now old) in
          rw old (record { since = c.since; past = tt; covered = omega (arith, kept, full) })
      | inr young ↦
          rw young (record { since = c.since; past = subst (IsPast now) e c.past; covered = kept })
    ]
  where
    kept :
        s.granted * token + balance l (some b) now
        ≤ l.capacity * token + s.refunded * token + (now - start) * l.refill_per_hour
    kept =
        subst
          (λ x.
            s.granted * token + balance l x now
            ≤ l.capacity * token + s.refunded * token + (now - start) * l.refill_per_hour)
          e c.covered

step-IsCovered :
    (l : Limits) (start : ℕ) (s : Tally) (a : Act)
    → 1 ≤ l.refill_per_hour
    → IsCovered l start (time_of a) s
    → IsCovered l start (time_of a) (step l s a)
unfolding step
step-IsCovered l start s (acquires now) rate c = acquire-IsCovered l start now s c
step-IsCovered l start s (refunds now) rate c = refund-IsCovered l start now s s.bucket refl c
step-IsCovered l start s (evicts now) rate c = evict-IsCovered l start now s s.bucket rate refl c

run-IsCovered :
    (l : Limits) (start now finish : ℕ) (s : Tally) (acts : List Act)
    → 1 ≤ l.refill_per_hour
    → Between now finish acts
    → IsCovered l start now s
    → IsCovered l start finish (run l s acts)
unfolding run
run-IsCovered l start now finish s [] rate b c = later-IsCovered l start now finish s b c
run-IsCovered l start now finish s (a ∷ acts) rate b c =
    run-IsCovered l start (time_of a) finish (step l s a) acts rate b.1
      (step-IsCovered l start s a rate (later-IsCovered l start now (time_of a) s b.0 c))

abbrev pub fresh : Option Bucket → Tally
fresh o = record { bucket = o; granted = 0; refunded = 0 }

-- In exact arithmetic in place of floats, and at a rate of at least 1: over any stretch of time in
-- which clocks do not go back, from any stored bucket, and whenever Redis drops a bucket whose time to
-- live is over, a guild is granted at most its burst capacity, plus the tokens given back, plus what
-- the rate refills in that time.
pub long_run_cap :
    (l : Limits) (o : Option Bucket) (start finish : ℕ) (acts : List Act)
    → 1 ≤ l.refill_per_hour
    → IsPast start o
    → Between start finish acts
    → let s = run l (fresh o) acts in
      s.granted * token
      ≤ l.capacity * token + s.refunded * token + (finish - start) * l.refill_per_hour
long_run_cap l o start finish acts rate past b =
    let c = run-IsCovered l start start finish (fresh o) acts rate b (record {
      since = omega arith;
      past = past;
      covered = omega (arith, balance-le l o start);
    }) in
    omega (arith, c.covered)
