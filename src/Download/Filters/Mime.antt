-- ===== src/Download/Filters/Mime.antt =====
-- `CATEGORY_PREDICATES` and `_content_type` of download/filters.py.
use discord_downloader_bot.Prelude.{
  ℕ, String, Bool, true, not, ◌&&◌, ◌||◌, Option, none, some, List, [], ◌∷◌, ◌++◌, text_eq, ◌==◌,
  if◌then◌else◌,
}
use mathlib.Core.List.{reverse}
use discord_downloader_bot.Data.{Attachment}
use discord_downloader_bot.Unicode.{Unicode, codes, codes_eq, is_prefix, is_space}

unfoldable pub is_gif : List ℕ → Bool
is_gif mime = codes_eq mime (codes "image/gif")

unfoldable pub is_image : List ℕ → Bool
is_image mime = is_prefix (codes "image/") mime && not (codes_eq mime (codes "image/gif"))

unfoldable pub is_video : List ℕ → Bool
is_video mime = is_prefix (codes "video/") mime

unfoldable pub is_audio : List ℕ → Bool
is_audio mime = is_prefix (codes "audio/") mime

unfoldable pub is_other : List ℕ → Bool
unfolding is_image is_video is_audio is_gif
is_other mime = not (is_image mime || (is_video mime || (is_audio mime || is_gif mime)))

-- The predicate under the category's name; with no predicate, everything passes.
unfoldable pub category_matches : String → List ℕ → Bool
unfolding is_other
category_matches category mime =
    if text_eq category "image"
    then is_image mime
    else if text_eq category "video"
    then is_video mime
    else if text_eq category "audio"
    then is_audio mime
    else if text_eq category "gif"
    then is_gif mime
    else if text_eq category "other"
    then is_other mime
    else true

-- `.split(";", 1)[0]`
unfoldable pub before_semicolon : List ℕ → List ℕ
before_semicolon [] = []
before_semicolon (c ∷ s) = if c == b';' then [] else c ∷ before_semicolon s

abbrev pub drop_spaces : List ℕ → List ℕ
drop_spaces [] = []
drop_spaces (c ∷ s) = if is_space c then drop_spaces s else c ∷ s

unfoldable pub strip : List ℕ → List ℕ
strip s = reverse (drop_spaces (reverse (drop_spaces s)))

lower_all : Unicode → List ℕ → List ℕ
lower_all u [] = []
lower_all u (c ∷ s) = u.lower c ++ lower_all u s

abbrev pub or_empty : Option String → List ℕ
or_empty none = []
or_empty (some s) = codes s

unfoldable pub content_type : Unicode → Attachment → List ℕ
unfolding before_semicolon strip lower_all
content_type u attachment =
    lower_all u (strip (before_semicolon (or_empty attachment.content_type)))
