-- ===== src/Embeds/Size.antt =====
-- `_humanise_bytes` of embeds.py. A quotient by a power of two is exact as a float (below 2^53), and
-- `:.1f` rounds it to the nearest tenth, a tie to the even one.
use discord_downloader_bot.Prelude.{ℕ, ◌*◌, ◌/◌, ◌%◌, List, [], ◌∷◌, leb, if◌then◌else◌}
use discord_downloader_bot.Rounding.{round_half_even}
use discord_downloader_bot.Data.{Piece, str, int}

-- n / unit in tenths, rounded half to even.
unfoldable pub tenths : ℕ → ℕ → ℕ
unfolding round_half_even
tenths n unit = round_half_even (n * 10) unit

abbrev one_decimal : ℕ → Piece → List Piece
one_decimal t unit = int (t / 10) ∷ str "." ∷ int (t % 10) ∷ unit ∷ []

abbrev pub kib : ℕ
kib = 1024

abbrev pub mib : ℕ
mib = 1048576

abbrev pub gib : ℕ
gib = 1073741824

unfoldable pub humanise_bytes : ℕ → List Piece
unfolding tenths
humanise_bytes n =
    if leb gib n
    then one_decimal (tenths n gib) (str " GB")
    else if leb mib n
    then one_decimal (tenths n mib) (str " MB")
    else if leb kib n
    then one_decimal (tenths n kib) (str " KB")
    else int n ∷ str " bytes" ∷ []
