-- ===== src/Download/Filters/Resolve.antt =====
-- `_build_matcher`, `ResolvedFilters` and `resolve` of download/filters.py.
use discord_downloader_bot.Prelude.{
  ℕ, String, Bool, true, ◌&&◌, Option, none, some, List, any, text_eq, ◌==◌, if◌then◌else◌,
}
use discord_downloader_bot.Data.{DownloadFilters, GuildSettings, Attachment, Message}
use discord_downloader_bot.Datetime.{Datetime}
use discord_downloader_bot.Download.Filters.Duration.{parse_duration}
use discord_downloader_bot.Download.Filters.Mime.{content_type, category_matches}
use discord_downloader_bot.Download.Filters.Period.{resolve_named_period, minus}
use discord_downloader_bot.World.{Result, ok}
use discord_downloader_bot.Raise.{◌>>=◌}
use discord_downloader_bot.Unicode.{Unicode, codes, codes_eq}

abbrev pub author_matches : Option ℕ → Message → Bool
author_matches none message = true
author_matches (some id) message = message.author_id == id

abbrev pub policy_allows : Option (List String) → List ℕ → Bool
policy_allows none mime = true
policy_allows (some allowed) mime = any (λ a. codes_eq mime (codes a)) allowed

-- `CATEGORY_PREDICATES.get(category) if category else None`; no predicate accepts everything.
abbrev pub in_category : Option String → List ℕ → Bool
in_category none mime = true
in_category (some category) mime = category_matches category mime

-- `_build_matcher` and the closure that it returns
unfoldable pub build_matcher :
    Unicode → Option String → Option ℕ → Option (List String) → Attachment → Message → Bool
unfolding content_type category_matches
build_matcher u category from_user_id guild_allowed_types attachment message =
    author_matches from_user_id message
    && (policy_allows guild_allowed_types (content_type u attachment)
        && in_category category (content_type u attachment))

pub record ResolvedFilters : Type 0 where
  pub matches : Attachment → Message → Bool
  pub before : Option Datetime
  pub after : Option Datetime

abbrev pub no_filters : DownloadFilters
no_filters = record {
  category = none;
  from_user_id = none;
  before = none;
  after = none;
  during = none;
}

abbrev pub payload : Option DownloadFilters → DownloadFilters
payload none = no_filters
payload (some filters) = filters

-- `now - parse_duration(value) if value else None`
abbrev pub bound : Unicode → Datetime → Option String → Result (Option Datetime)
bound u now none = ok none
bound u now (some value) =
    if text_eq value ""
    then ok none
    else do delta ← parse_duration u value; t ← minus now delta; ok (some t)

-- `(after, before)`
abbrev pub window :
    Unicode
    → DownloadFilters
    → Datetime
    → Option String
    → Result (Option Datetime × Option Datetime)
window u filters now none = do
  before ← bound u now filters.before
  after ← bound u now filters.after
  ok (after, before)
window u filters now (some during) = do w ← resolve_named_period during now; ok (some w.0, some w.1)

unfoldable pub resolve :
    Unicode → Option DownloadFilters → GuildSettings → Datetime → Result ResolvedFilters
unfolding build_matcher parse_duration minus resolve_named_period
resolve u filters guild_settings now = do
  w ← window u (payload filters) now (payload filters).during
  ok (record {
    matches =
        build_matcher u (payload filters).category (payload filters).from_user_id
          guild_settings.allowed_media_types;
    before = w.1;
    after = w.0;
  })
