-- ===== src/Storage/Disposition.antt =====
-- `_format_content_disposition` of storage/azure.py, with `str.encode` and `urllib.parse.quote`, on
-- code points.
use discord_downloader_bot.Prelude.{
  ℕ, ◌+◌, ◌-◌, ◌/◌, ◌%◌, Bool, ◌&&◌, ◌||◌, List, [], ◌∷◌, ◌++◌, map, all, any, ltb, leb, ◌==◌,
  if◌then◌else◌,
}
use discord_downloader_bot.Unicode.{codes}
use discord_downloader_bot.World.{Result, ok, raised, value_error}
use discord_downloader_bot.Raise.{◌>>=◌}

abbrev pub is_ascii : List ℕ → Bool
is_ascii = all (λ c. ltb c 128)

-- `filename.encode("ascii", "replace")`
abbrev pub ascii_replace : List ℕ → List ℕ
ascii_replace = map (λ c. if ltb c 128 then c else b'?')

unfoldable pub utf8 : ℕ → List ℕ
utf8 n =
    if ltb n 128
    then n ∷ []
    else if ltb n 2048
    then (192 + n / 64) ∷ (128 + n % 64) ∷ []
    else if ltb n 65536
    then (224 + n / 4096) ∷ (128 + n / 64 % 64) ∷ (128 + n % 64) ∷ []
    else (240 + n / 262144) ∷ (128 + n / 4096 % 64) ∷ (128 + n / 64 % 64) ∷ (128 + n % 64) ∷ []

unfoldable pub hex : ℕ → ℕ
hex d = if ltb d 10 then b'0' + d else b'A' + (d - 10)

unfoldable pub percent : List ℕ → List ℕ
unfolding hex
percent [] = []
percent (b ∷ bs) = b'%' ∷ hex (b / 16) ∷ hex (b % 16) ∷ percent bs

-- The letters, the digits and `_.-~`.
unfoldable pub is_unreserved : ℕ → Bool
is_unreserved n =
    leb b'a' n && leb n b'z'
    || (leb b'A' n && leb n b'Z'
        || (leb b'0' n && leb n b'9' || (n == b'_' || (n == b'.' || (n == b'-' || n == b'~')))))

-- `parse.quote(filename, safe="")`
unfoldable pub quote : List ℕ → List ℕ
unfolding percent utf8 is_unreserved
quote [] = []
quote (c ∷ s) = (if is_unreserved c then c ∷ [] else percent (utf8 c)) ++ quote s

-- A lone surrogate has no UTF-8: `parse.quote` raises UnicodeEncodeError, which is a ValueError.
abbrev pub is_surrogate : ℕ → Bool
is_surrogate c = leb 55296 c && leb c 57343

unfoldable pub parse_quote : List ℕ → Result (List ℕ)
unfolding quote
parse_quote filename = if any is_surrogate filename then raised value_error else ok (quote filename)

unfoldable pub format_content_disposition : List ℕ → Result (List ℕ)
unfolding parse_quote
format_content_disposition filename =
    if is_ascii filename
    then ok (codes "attachment; filename=\"" ++ (filename ++ codes "\""))
    else (do
      encoded ← parse_quote filename
      ok (
          codes "attachment; filename=\""
          ++ (ascii_replace filename ++ (codes "\"; filename*=UTF-8''" ++ encoded))))
