-- ===== src/Rounding.antt =====
-- Python's `round`: to the nearest integer, and a tie to the even one.
use discord_downloader_bot.Prelude.{ℕ, ◌+◌, ◌*◌, ◌/◌, ◌%◌, ◌&&◌, ◌||◌, ltb, ◌==◌, if◌then◌else◌}

-- `round(num / den)`
unfoldable pub round_half_even : ℕ → ℕ → ℕ
round_half_even num den =
    let q = num / den in
    let r = num % den in if ltb den (2 * r) || (2 * r == den && q % 2 == 1) then q + 1 else q
