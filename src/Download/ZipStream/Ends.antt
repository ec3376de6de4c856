-- ===== src/Download/ZipStream/Ends.antt =====
-- How the pipeline ends: never with an empty archive, and with the connection released.
use discord_downloader_bot.Prelude.{ℕ, String, ◌≡◌, ◌≢◌, Bool, Option, List, [], ◌∷◌, arith}
use discord_downloader_bot.Datetime.{Datetime}
use discord_downloader_bot.Data.{Channel, Attachment, Message}
use discord_downloader_bot.World.{
  client_error, attachment_stream_error, no_matching_attachments, Result, ok, raised, Event, Env,
  History, is_ok, http_body, http_release, ◌>>=◌, raise,
}
use discord_downloader_bot.World.Steps.{>>=-eq-ok, >>=-ok}
use discord_downloader_bot.Download.ZipStream.Progress.{TimeSnowflake}
use discord_downloader_bot.Download.ZipStream.Walk.{Member, Reporter}
use discord_downloader_bot.Download.ZipStream.Pipeline.{
  members, peek_or_raise_empty, build_zip_stream, stream_response,
}

peeked :
    (ms ms' : List Member) (env : Env) (h h' : History)
    → peek_or_raise_empty ms env h ≡ (ok ms', h')
    → ms' ≢ []
unfolding peek_or_raise_empty ◌>>=◌
peeked [] ms' env h h' e q = cc
peeked (m ∷ ms) ms' env h h' e q = cc

module _ (snowflake : TimeSnowflake) (channel : Channel)
    (matches : Option (Attachment → Message → Bool)) (before after' : Option Datetime)
    (r : Option Reporter) (env : Env) (h h' : History) where
  -- An archive that is streamed has a member.
  pub no_empty_archive :
      (ms : List Member)
      → build_zip_stream snowflake channel matches before after' r env h ≡ (ok ms, h')
      → ms ≢ []
  unfolding build_zip_stream
  no_empty_archive ms e =
      let (found, k, e₁, e₂) =
        >>=-eq-ok (members snowflake channel matches before after' r) peek_or_raise_empty env h e in
      peeked found ms env k h' e₂

  -- A walk that ends without a member raises `no_matching_attachments`, and no further call is made.
  pub empty_walk_raises :
      members snowflake channel matches before after' r env h ≡ (ok [], h')
      → build_zip_stream snowflake channel matches before after' r env h
        ≡ (raised no_matching_attachments, h')
  unfolding build_zip_stream peek_or_raise_empty raise
  empty_walk_raises e =
      >>=-ok (members snowflake channel matches before after' r) peek_or_raise_empty env h h' [] e

abbrev pub body_event : Env → History → String → ℕ → Event
body_event env h url n = record {
  call = http_body url n;
  returned = is_ok (env h (http_body url n));
}

abbrev pub release_event : Env → History → String → Event
release_event env h url = record {
  call = http_release url;
  returned = is_ok (env h (http_release url));
}

-- What the consumer sees of a body: an error of the connection is an `attachment_stream_error`.
abbrev pub seen : Result (List String) → Result (List String)
seen (ok chunks) = ok chunks
seen (raised client_error) = raised attachment_stream_error
seen (raised e) = raised e

-- However the body of an attachment ends, the connection is released, as the last call. Where the
-- release returns, the consumer sees the chunks or the exception, an error of the connection as
-- `attachment_stream_error`; what the release raises takes their place.
pub stream_always_releases :
    (env : Env) (h : History) (url : String) (n : ℕ)
    → let body = body_event env h url n in
      stream_response url n env h ≡ (
        elim (env (body ∷ h) (http_release url)) as (λ _. Result (List String)) [
          | ok _ ↦ seen (env h (http_body url n))
          | raised x ↦ raised x
        ],
        release_event env (body ∷ h) url ∷ body ∷ h,
      )
unfolding stream_response ◌>>=◌
stream_always_releases env h url n = ground arith
