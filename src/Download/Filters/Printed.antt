-- ===== src/Download/Filters/Printed.antt =====
-- A duration that is written out and read again.
use Prim.Native.String.{◌++◌ as append}
use discord_downloader_bot.Prelude.{
  ℕ, suc, ◌*◌, ◌/◌, ◌≤◌, ◌<◌, String, ◌≡◌, refl, ap, subst, ◌∙◌, false, some, List, [], ◌∷◌, ◌++◌,
  map, arith, length, All,
}
use discord_downloader_bot.World.{ok}
use discord_downloader_bot.Unicode.{Unicode, codes, is_space}
use discord_downloader_bot.Keys.{decimal}
use discord_downloader_bot.Keys.Digits.{
  codes-append, codes-decimal, char, digits, digits-small, digits-length, digits-cons,
  to_number-digits,
}
use discord_downloader_bot.Download.Filters.Duration.{
  max_days, span_digits, skip_spaces, with_digits, to_timedelta, to_number, match_duration,
  parse_duration,
}

pub data TimeUnit : Type 0 where
  minutes hours days weeks : TimeUnit

abbrev pub letter : TimeUnit → String
letter minutes = "m"
letter hours = "h"
letter days = "d"
letter weeks = "w"

abbrev pub seconds : TimeUnit → ℕ
seconds minutes = 60
seconds hours = 3600
seconds days = 86400
seconds weeks = 604800

module _ (u : Unicode) where
  span-digits :
      (ds : List ℕ) (unit : TimeUnit)
      → All (λ d. d < 10) ds
      → span_digits u (map char ds ++ codes (letter unit)) ≡ (ds, codes (letter unit))
  unfolding span_digits
  span-digits [] minutes a = rw (u.letter_no_digit b'm' refl) refl
  span-digits [] hours a = rw (u.letter_no_digit b'h' refl) refl
  span-digits [] days a = rw (u.letter_no_digit b'd' refl) refl
  span-digits [] weeks a = rw (u.letter_no_digit b'w' refl) refl
  span-digits (d ∷ ds) unit (h, a) = rw (u.ascii_digit d h, span-digits ds unit a) refl

digit_no_space : (d : ℕ) → d < 10 → is_space (char d) ≡ false
unfolding is_space
digit_no_space d h = ground arith

skip-digit : (d : ℕ) (s : List ℕ) → d < 10 → skip_spaces (char d ∷ s) ≡ char d ∷ s
unfolding skip_spaces is_space
skip-digit d s h = rw (digit_no_space d h) refl

with_digits-letter :
    (d : ℕ) (ds : List ℕ) (unit : TimeUnit)
    → with_digits (d ∷ ds) (codes (letter unit)) ≡ some (d ∷ ds, seconds unit)
with_digits-letter d ds minutes = refl
with_digits-letter d ds hours = refl
with_digits-letter d ds days = refl
with_digits-letter d ds weeks = refl

match-printed :
    (u : Unicode) (d : ℕ) (ds : List ℕ) (unit : TimeUnit)
    → All (λ d. d < 10) (d ∷ ds)
    → match_duration u (map char (d ∷ ds) ++ codes (letter unit)) ≡ some (d ∷ ds, seconds unit)
unfolding match_duration
match-printed u d ds unit a =
    rw (skip-digit d (map char ds ++ codes (letter unit)) a.0, span-digits u (d ∷ ds) unit a)
      (with_digits-letter d ds unit)

-- A number in range has 13 digits at most.
few_digits :
    (n : ℕ) (unit : TimeUnit) → n * seconds unit / 86400 ≤ max_days → length (digits (suc n) n) ≤ 13
few_digits n unit bound = digits-length (suc n) n 12 (small unit bound)
  where
    small : (unit : TimeUnit) → n * seconds unit / 86400 ≤ max_days → n < 10000000000000
    small minutes h = omega arith
    small hours h = omega arith
    small days h = omega arith
    small weeks h = omega arith

to_timedelta-ok :
    (value : String) (ds : List ℕ) (n k : ℕ)
    → length ds ≤ 13
    → to_number 0 ds ≡ n
    → 0 < n
    → n * k / 86400 ≤ max_days
    → to_timedelta value (ds, k) ≡ ok (n * k)
to_timedelta-ok value ds n k few e pos bound = rw e (ground arith)

-- A number of minutes, hours, days or weeks, not 0 and within the range of a `timedelta`, is what
-- `parse_duration` reads from the text of the number and the letter of the unit.
pub parse_duration-decimal :
    (u : Unicode) (n : ℕ) (unit : TimeUnit)
    → 0 < n
    → n * seconds unit / 86400 ≤ max_days
    → parse_duration u (append (decimal n) (letter unit)) ≡ ok (n * seconds unit)
unfolding parse_duration match_duration
parse_duration-decimal u n unit pos bound =
    let ds = digits (suc n) n in
    let text : codes (append (decimal n) (letter unit)) ≡ map char ds ++ codes (letter unit) =
      codes-append (decimal n) (letter unit)
      ∙ ap (λ l. l ++ codes (letter unit)) (codes-decimal n) in
    let (d, rest, first) = digits-cons n n in
    let read : match_duration u (map char ds ++ codes (letter unit)) ≡ some (ds, seconds unit) =
      rw first
        (match-printed u d rest unit (subst (All (λ d. d < 10)) first (digits-small (suc n) n))) in
    rw (text, read)
      (to_timedelta-ok _ ds n (seconds unit) (few_digits n unit bound)
        (to_number-digits (suc n) n (omega arith)) pos bound)
