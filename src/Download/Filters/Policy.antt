-- ===== src/Download/Filters/Policy.antt =====
-- What a user's filters can do to the policy of a guild, and the categories.
use discord_downloader_bot.Prelude.{
  ℕ, String, Bool, true, false, not, ◌&&◌, ◌||◌, ◌≡◌, refl, sym, ap, ◌∙◌, Option, arith, List, [],
  ◌∷◌, ◌+◌, if◌then◌else◌,
}
use discord_downloader_bot.Datetime.{Datetime}
use discord_downloader_bot.Data.{DownloadFilters, GuildSettings, Attachment, Message}
use discord_downloader_bot.World.{Result, ok, raised}
use discord_downloader_bot.Unicode.{Unicode, codes, codes_eq, is_prefix}
use discord_downloader_bot.Raise.{◌>>=◌}
use discord_downloader_bot.Download.Filters.Mime.{
  is_image, is_video, is_audio, is_gif, is_other, content_type,
}
use discord_downloader_bot.Download.Filters.Resolve.{
  author_matches, policy_allows, in_category, build_matcher, ResolvedFilters, payload, window,
  resolve,
}

-- How many of the five categories a MIME type is in.
abbrev pub one_if : Bool → ℕ
one_if b = if b then 1 else 0

abbrev pub categories_of : List ℕ → ℕ
categories_of mime =
    one_if (is_image mime)
    + one_if (is_video mime)
    + one_if (is_audio mime)
    + one_if (is_gif mime)
    + one_if (is_other mime)

-- Two prefixes of one text of which neither is a prefix of the other.
image_not_video :
    (mime : List ℕ) → (is_prefix (codes "image/") mime && is_prefix (codes "video/") mime) ≡ false
image_not_video [] = refl
image_not_video (c ∷ mime) = ground arith

image_not_audio :
    (mime : List ℕ) → (is_prefix (codes "image/") mime && is_prefix (codes "audio/") mime) ≡ false
image_not_audio [] = refl
image_not_audio (c ∷ mime) = ground arith

video_not_audio :
    (mime : List ℕ) → (is_prefix (codes "video/") mime && is_prefix (codes "audio/") mime) ≡ false
video_not_audio [] = refl
video_not_audio (c ∷ mime) = ground arith

gif_no_video :
    (mime : List ℕ) → (codes_eq mime (codes "image/gif") && is_prefix (codes "video/") mime) ≡ false
gif_no_video [] = refl
gif_no_video (c ∷ mime) = ground arith

gif_no_audio :
    (mime : List ℕ) → (codes_eq mime (codes "image/gif") && is_prefix (codes "audio/") mime) ≡ false
gif_no_audio [] = refl
gif_no_audio (c ∷ mime) = ground arith

-- Of disjoint conditions and none of them, one holds.
count_one :
    (i v a g : Bool)
    → (i && v) ≡ false
    → (i && a) ≡ false
    → (v && a) ≡ false
    → (g && v) ≡ false
    → (g && a) ≡ false
    → one_if (i && not g)
        + one_if v
        + one_if a
        + one_if g
        + one_if (not ((i && not g) || (v || (a || g))))
      ≡ 1
count_one true v a true h k l m n = ground arith
count_one true v a false h k l m n = ground arith
count_one false v a true h k l m n = ground arith
count_one false true a false h k l m n = ground arith
count_one false false true false h k l m n = refl
count_one false false false false h k l m n = refl

-- Each MIME type is in exactly one of the five categories.
pub one_category : (mime : List ℕ) → categories_of mime ≡ 1
unfolding is_other is_image is_video is_audio is_gif
one_category mime =
    count_one (is_prefix (codes "image/") mime) (is_prefix (codes "video/") mime)
      (is_prefix (codes "audio/") mime) (codes_eq mime (codes "image/gif")) (image_not_video mime)
      (image_not_audio mime) (video_not_audio mime) (gif_no_video mime) (gif_no_audio mime)

-- An attachment whose type the guild allows.
abbrev pub allows : Unicode → GuildSettings → Attachment → Bool
allows u s a = policy_allows s.allowed_media_types (content_type u a)

matcher_narrows :
    (u : Unicode) (category : Option String) (author : Option ℕ) (allowed : Option (List String))
    (a : Attachment) (m : Message)
    → build_matcher u category author allowed a m ≡ true
    → policy_allows allowed (content_type u a) ≡ true
unfolding build_matcher
matcher_narrows u category author allowed a m e =
    both (author_matches author m) (policy_allows allowed (content_type u a))
      (in_category category (content_type u a)) e
  where
    both : (x y z : Bool) → (x && (y && z)) ≡ true → y ≡ true
    both true true z e = refl
    both true false z e = e
    both false y z e = cc

resolved_matches :
    (u : Unicode) (filters : Option DownloadFilters) (s : GuildSettings) (now : Datetime)
    (r : ResolvedFilters)
    → resolve u filters s now ≡ ok r
    → r.matches
      ≡ build_matcher u
          (payload filters).category
          (payload filters).from_user_id
          s.allowed_media_types
unfolding resolve
resolved_matches u filters s now r e =
    split (window u (payload filters) now (payload filters).during) e
  where
    split :
        (w : Result (Option Datetime × Option Datetime))
        → (w >>= λ v. ok (record {
          matches =
              build_matcher u
                (payload filters).category
                (payload filters).from_user_id
                s.allowed_media_types;
          before = v.1;
          after = v.0;
        }))
          ≡ ok r
        → r.matches
          ≡ build_matcher u
              (payload filters).category
              (payload filters).from_user_id
              s.allowed_media_types
    split (ok v) q = cc
    split (raised x) q = cc

-- Whatever filters a user gives, what they accept is of a type that the guild allows: filters narrow
-- the policy and never widen it.
pub filters_only_narrow :
    (u : Unicode) (filters : Option DownloadFilters) (s : GuildSettings) (now : Datetime)
    (r : ResolvedFilters) (a : Attachment) (m : Message)
    → resolve u filters s now ≡ ok r
    → r.matches a m ≡ true
    → allows u s a ≡ true
filters_only_narrow u filters s now r a m e accepted =
    matcher_narrows u (payload filters).category (payload filters).from_user_id
      s.allowed_media_types a m
      (ap (λ f. f a m) (sym (resolved_matches u filters s now r e)) ∙ accepted)
