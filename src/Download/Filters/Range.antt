-- ===== src/Download/Filters/Range.antt =====
-- Which durations `parse_duration` accepts.
use discord_downloader_bot.Prelude.{
  ℕ, String, ◌≡◌, refl, Option, none, some, arith, List, [], ◌∷◌, ◌*◌, ◌≤◌, ◌/◌,
}
use discord_downloader_bot.World.{ok}
use discord_downloader_bot.Unicode.{Unicode, codes}
use discord_downloader_bot.Download.Filters.Duration.{
  max_days, match_unit, span_digits, skip_spaces, with_digits, to_timedelta, to_number, or_invalid,
  match_duration, parse_duration,
}

unit_range : (s : List ℕ) (k : ℕ) → match_unit s ≡ some k → 60 ≤ k
unit_range [] k e = cc
unit_range (c ∷ s) k e = ground arith

digits_range : (ds rest ds' : List ℕ) (k : ℕ) → with_digits ds rest ≡ some (ds', k) → 60 ≤ k
digits_range [] rest ds' k e = cc
digits_range (d ∷ ds) rest ds' k e = ground (arith, unit_range rest)

product_range : (n k : ℕ) → 1 ≤ n → 60 ≤ k → 60 ≤ n * k
product_range n k h l = grind arith

timedelta_range :
    (value : String) (ds : List ℕ) (k seconds : ℕ)
    → 60 ≤ k
    → to_timedelta value (ds, k) ≡ ok seconds
    → (60 ≤ seconds) × (seconds / 86400 ≤ max_days)
timedelta_range value ds k seconds h e = ground (arith, product_range (to_number 0 ds) k)

found_range :
    (value : String) (seconds : ℕ) (o : Option (List ℕ × ℕ))
    → ((ds : List ℕ) (k : ℕ) → o ≡ some (ds, k) → 60 ≤ k)
    → or_invalid value o ≡ ok seconds
    → (60 ≤ seconds) × (seconds / 86400 ≤ max_days)
found_range value seconds none h e = cc
found_range value seconds (some (ds, k)) h e = timedelta_range value ds k seconds (h ds k refl) e

-- A duration that is accepted is at least a minute, and no longer than a `timedelta` can be.
pub duration_in_range :
    (u : Unicode) (value : String) (seconds : ℕ)
    → parse_duration u value ≡ ok seconds
    → (60 ≤ seconds) × (seconds / 86400 ≤ max_days)
unfolding parse_duration match_duration
duration_in_range u value seconds e =
    let s = span_digits u (skip_spaces (codes value)) in
    found_range value seconds (with_digits s.0 s.1) (λ ds k q. digits_range s.0 s.1 ds k q) e
