-- ===== src/Download/Filters/Categories.antt =====
-- The five categories of download/filters.py, as a user meets them in `media_type`.
use discord_downloader_bot.Prelude.{
  ℕ, ◌+◌, String, Bool, true, false, ◌&&◌, ◌≡◌, refl, Option, none, some, List,
}
use discord_downloader_bot.Data.{Attachment, Message}
use discord_downloader_bot.Unicode.{Unicode}
use discord_downloader_bot.Download.Filters.Mime.{content_type, category_matches}
use discord_downloader_bot.Download.Filters.Resolve.{author_matches, policy_allows, build_matcher}
use discord_downloader_bot.Download.Filters.Policy.{one_if, one_category}

module _ (u : Unicode) (author : Option ℕ) (allowed : Option (List String)) (a : Attachment)
    (m : Message) where
  -- The matcher of a category, and that of no category, for the same author and policy.
  abbrev pub accepted_in : Option String → ℕ
  accepted_in category = one_if (build_matcher u category author allowed a m)

  -- What the matcher without a category accepts, exactly one of the matchers of the five categories
  -- accepts, and what it refuses, none of them does.
  pub categories_split :
      accepted_in (some "image")
        + accepted_in (some "video")
        + accepted_in (some "audio")
        + accepted_in (some "gif")
        + accepted_in (some "other")
      ≡ accepted_in none
  unfolding build_matcher category_matches
  categories_split = split (author_matches author m) (policy_allows allowed (content_type u a))
    where
      split :
          (x y : Bool)
          → one_if (x && (y && category_matches "image" (content_type u a)))
              + one_if (x && (y && category_matches "video" (content_type u a)))
              + one_if (x && (y && category_matches "audio" (content_type u a)))
              + one_if (x && (y && category_matches "gif" (content_type u a)))
              + one_if (x && (y && category_matches "other" (content_type u a)))
            ≡ one_if (x && (y && true))
      split false y = refl
      split true false = refl
      split true true = one_category (content_type u a)
