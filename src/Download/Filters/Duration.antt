-- ===== src/Download/Filters/Duration.antt =====
-- `_DURATION_RE`, `_UNIT_TO_SECONDS` and `parse_duration` of download/filters.py. White space, digits
-- and units share no character, so the match of `^\s*(\d+)([mhdw])\s*$` is found without going back.
use discord_downloader_bot.Prelude.{
  ℕ, ◌+◌, ◌*◌, ◌/◌, String, Option, none, some, List, [], ◌∷◌, ltb, ◌==◌, if◌then◌else◌, all,
  length,
}
use discord_downloader_bot.Data.{Piece, str}
use discord_downloader_bot.World.{
  Result, ok, raised, filter_parse_error, value_error, overflow_error,
}
use discord_downloader_bot.Unicode.{Unicode, codes, is_space}

-- `\s*`
unfoldable pub skip_spaces : List ℕ → List ℕ
skip_spaces [] = []
skip_spaces (c ∷ s) = if is_space c then skip_spaces s else c ∷ s

-- `(\d+)`: the digits' values and what follows them
unfoldable pub span_digits : Unicode → List ℕ → List ℕ × List ℕ
span_digits u [] = ([], [])
span_digits u (c ∷ s) =
    let (ds, rest) = span_digits u s in
    elim (u.digit_value c) [ none ↦ ([], c ∷ s) | some d ↦ (d ∷ ds, rest) ]

abbrev pub unit_seconds : ℕ → Option ℕ
unit_seconds c =
    if c == b'm'
    then some 60
    else if c == b'h'
    then some 3600
    else if c == b'd'
    then some 86400
    else if c == b'w'
    then some 604800
    else none

-- `([mhdw])\s*$`
abbrev pub match_unit : List ℕ → Option ℕ
match_unit [] = none
match_unit (c ∷ s) = if all is_space s then unit_seconds c else none

abbrev pub with_digits : List ℕ → List ℕ → Option (List ℕ × ℕ)
with_digits [] rest = none
with_digits (d ∷ ds) rest = elim (match_unit rest) [ none ↦ none | some k ↦ some (d ∷ ds, k) ]

-- The digits, and the seconds of the unit.
unfoldable pub match_duration : Unicode → List ℕ → Option (List ℕ × ℕ)
unfolding skip_spaces span_digits
match_duration u s = let (ds, rest) = span_digits u (skip_spaces s) in with_digits ds rest

-- `int(…)`, most significant digit first
unfoldable pub to_number : ℕ → List ℕ → ℕ
to_number acc [] = acc
to_number acc (d ∷ ds) = to_number (acc * 10 + d) ds

-- The most digits that `int` converts (`sys.get_int_max_str_digits`), and the largest number of days
-- of a `timedelta`.
abbrev pub max_digits : ℕ
max_digits = 4300

abbrev pub max_days : ℕ
max_days = 999999999

-- The messages of the errors.
abbrev pub invalid_duration : String → List Piece
invalid_duration value =
    str "Invalid duration `"
    ∷ str value
    ∷ str "`. Use a number followed by `m`, `h`, `d`, or `w` (e.g. `30m`, `2h`, `7d`, `3w`)."
    ∷ []

abbrev pub zero_duration : String → List Piece
zero_duration value =
    str "Invalid duration `" ∷ str value ∷ str "` — magnitude must be greater than zero." ∷ []

abbrev pub to_timedelta : String → List ℕ × ℕ → Result ℕ
to_timedelta value (ds, k) =
    if ltb max_digits (length ds)
    then raised value_error
    else if to_number 0 ds == 0
    then raised (filter_parse_error (zero_duration value))
    else if ltb max_days (to_number 0 ds * k / 86400)
    then raised overflow_error
    else ok (to_number 0 ds * k)

abbrev pub or_invalid : String → Option (List ℕ × ℕ) → Result ℕ
or_invalid value none = raised (filter_parse_error (invalid_duration value))
or_invalid value (some m) = to_timedelta value m

-- A duration in seconds.
unfoldable pub parse_duration : Unicode → String → Result ℕ
unfolding match_duration to_number
parse_duration u value = or_invalid value (match_duration u (codes value))
