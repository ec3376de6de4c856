-- ===== src/Download/ZipStream/Calls.antt =====
-- What the generators of download/zip_stream.py call.
use discord_downloader_bot.Prelude.{ℕ, Bool, true, false, Option, none, some, List, [], ◌∷◌}
use discord_downloader_bot.Datetime.{Datetime}
use discord_downloader_bot.Data.{Attachment, Message, Channel}
use discord_downloader_bot.World.{
  Exn, client_error, Call, Env, monotonic, oldest_message, channel_history, http_get, http_release,
  set_progress, datetime_now,
}
use discord_downloader_bot.World.Trace.{Makes, Makes-bind, makes_rules}
use discord_downloader_bot.Download.ZipStream.Progress.{
  Snapshot, TimeSnowflake, Bounds, resolve_snowflake_bounds,
}
use discord_downloader_bot.Download.ZipStream.Progress
use discord_downloader_bot.Download.ZipStream.Walk.{
  Walk, Reporter, tick, visit, walk_attachments, walk_messages,
}
use discord_downloader_bot.Download.ZipStream.Walk
use discord_downloader_bot.Download.ZipStream.Pipeline.{
  members, build_zip_stream, peek_or_raise_empty,
}
use discord_downloader_bot.Download.ZipStream.Pipeline

-- The calls of the walk, those of its progress reports included.
abbrev pub is_streaming : Call → Bool
is_streaming monotonic = true
is_streaming datetime_now = true
is_streaming (oldest_message _) = true
is_streaming (channel_history _ _ _) = true
is_streaming (http_get _) = true
is_streaming (http_release _) = true
is_streaming (set_progress _ _) = true
is_streaming _ = false

swallow-Makes : (env : Env) (e : Exn) → Makes is_streaming env (Walk.swallow e)
swallow-Makes env e = search makes_rules

setup_error-Makes : (env : Env) (e : Exn) → Makes is_streaming env (Walk.setup_error e)
setup_error-Makes env client_error = search makes_rules
setup_error-Makes env _ = search makes_rules

on_status-Makes :
    (env : Env) (a : Attachment) (m : Message) (w : Walk) (status : Option ℕ)
    → Makes is_streaming env (Walk.on_status a m w status)
on_status-Makes env a m w none = search makes_rules
on_status-Makes env a m w (some status) = search makes_rules

module _ (matches : Option (Attachment → Message → Bool)) (env : Env) where
  visit-Makes :
      (m : Message) (a : Attachment) (w : Walk) → Makes is_streaming env (visit matches m a w)
  unfolding visit
  visit-Makes m a w = search (makes_rules, setup_error-Makes, on_status-Makes)

  walk_attachments-Makes :
      (m : Message) (as' : List Attachment) (w : Walk)
      → Makes is_streaming env (walk_attachments matches m as' w)
  unfolding walk_attachments
  walk_attachments-Makes m [] w = search makes_rules
  walk_attachments-Makes m (a ∷ as') w =
      search (makes_rules, visit-Makes m a w, walk_attachments-Makes m as')

module _ (env : Env) (r : Reporter) where
  -- The reports that the task makes are of this kind.
  abbrev pub Reports : Type 0
  Reports = (s : Snapshot) → Makes is_streaming env (r.on_progress s)

  module _ (reports : Reports) where
    tick-Makes :
        (bounds : Bounds) (m : Message) (w : Walk)
        → Makes is_streaming env (tick (some r) bounds m w)
    unfolding tick
    tick-Makes bounds m w = search (makes_rules, reports, swallow-Makes)

    walk_messages-Makes :
        (matches : Option (Attachment → Message → Bool)) (bounds : Bounds) (ms : List Message)
        (w : Walk)
        → Makes is_streaming env (walk_messages matches (some r) bounds ms w)
    unfolding walk_messages
    walk_messages-Makes matches bounds [] w = search makes_rules
    walk_messages-Makes matches bounds (m ∷ ms) w = Makes-bind _ _ (tick-Makes bounds m w) λ w'.
        Makes-bind _ _ (walk_attachments-Makes matches env m m.attachments w')
          λ w''. walk_messages-Makes matches bounds ms w''

no_oldest-Makes : (env : Env) (e : Exn) → Makes is_streaming env (Progress.no_oldest e)
no_oldest-Makes env e = search makes_rules

low_bound-Makes :
    (env : Env) (f : TimeSnowflake) (c : Channel) (after : Option Datetime)
    → Makes is_streaming env (Progress.low_bound f c after)
low_bound-Makes env f c none = search (makes_rules, no_oldest-Makes)
low_bound-Makes env f c (some after) = search makes_rules

resolve_snowflake_bounds-Makes :
    (env : Env) (f : TimeSnowflake) (c : Channel) (before after : Option Datetime)
    → Makes is_streaming env (resolve_snowflake_bounds f c before after)
unfolding resolve_snowflake_bounds
resolve_snowflake_bounds-Makes env f c before after = search (makes_rules, low_bound-Makes)

at_end-Makes :
    (env : Env) (failure : Option Exn) (w : Walk)
    → Makes is_streaming env (Pipeline.at_end failure w)
at_end-Makes env none w = search makes_rules
at_end-Makes env (some e) w = search makes_rules

peek_or_raise_empty-Makes :
    (env : Env) (ms : List Walk.Member) → Makes is_streaming env (peek_or_raise_empty ms)
unfolding peek_or_raise_empty
peek_or_raise_empty-Makes env [] = search makes_rules
peek_or_raise_empty-Makes env (m ∷ ms) = search makes_rules

-- The stream of an archive makes no call but those of the walk.
pub build_zip_stream-Makes :
    (env : Env) (r : Reporter) (reports : Reports env r) (f : TimeSnowflake) (c : Channel)
    (matches : Option (Attachment → Message → Bool)) (before after : Option Datetime)
    → Makes is_streaming env (build_zip_stream f c matches before after (some r))
unfolding build_zip_stream members
build_zip_stream-Makes env r reports f c matches before after =
    search
      (
        makes_rules,
        resolve_snowflake_bounds-Makes,
        walk_messages-Makes env r reports,
        at_end-Makes,
        peek_or_raise_empty-Makes,
      )
      depth 12
