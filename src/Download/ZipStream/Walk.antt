-- ===== src/Download/ZipStream/Walk.antt =====
-- The body of `_members` of download/zip_stream.py: the messages in order, and the attachments of
-- each.
use discord_downloader_bot.Prelude.{
  ℕ, ◌+◌, ◌-◌, String, Bool, true, Option, none, some, List, [], ◌∷◌, ◌++◌, leb, ◌==◌, get_or,
  if◌then◌else◌,
}
use discord_downloader_bot.Int.{ℤ, pos}
use discord_downloader_bot.Datetime.{Datetime}
use discord_downloader_bot.Data.{Piece, str, int, Attachment, Message, Fraction}
use discord_downloader_bot.World.{
  Exn, client_error, is_exception, Exec, await, pure, raise, catch, ◌>>=◌, ◌>>◌, http_get,
  http_release, monotonic,
}
use discord_downloader_bot.Download.ZipStream.Progress.{Snapshot, Bounds, compute_history_fraction}

-- A member tuple; the mode, the method and the open response are the same for all of them.
pub record Member : Type 0 where
  pub name : List Piece
  pub mtime : Datetime
  pub url : String

-- The variables of the generator, and what it has yielded, the last one last.
pub record Walk : Type 0 where
  pub attachments_done : ℕ
  pub bytes_streamed : ℕ
  pub last_emit : ℕ
  pub members : List Member

-- `on_progress` and `progress_throttle_seconds`, in microseconds
pub record Reporter : Type 0 where
  pub on_progress : Snapshot → Exec (Unit {0})
  pub throttle : ℕ

abbrev pub start : ℕ → Walk
start last_emit = record {
  attachments_done = 0;
  bytes_streamed = 0;
  last_emit = last_emit;
  members = [];
}

abbrev pub fraction_of : ℕ → Option ℤ → Option ℤ → Option Fraction
fraction_of id (some low) (some high) = some (compute_history_fraction (pos id) low high)
fraction_of id low high = none

abbrev pub snapshot : Walk → Bounds → Message → Snapshot
snapshot w bounds message = record {
  attachments_done = w.attachments_done;
  bytes_streamed = w.bytes_streamed;
  history_fraction = fraction_of message.id bounds.low bounds.high;
}

-- `except Exception`: a report that fails is dropped.
abbrev pub swallow : Exn → Exec (Unit {0})
swallow e = if is_exception e then pure tt else raise e

-- The throttled report at the head of the loop over the messages.
unfoldable pub tick : Option Reporter → Bounds → Message → Walk → Exec Walk
tick none bounds message w = pure w
tick (some r) bounds message w = do
  now ← await monotonic
  if leb r.throttle (now - w.last_emit)
      then (do
        catch (r.on_progress (snapshot w bounds message)) swallow
        pure (record w { last_emit = now }))
      else pure w

abbrev pub accepts : Option (Attachment → Message → Bool) → Attachment → Message → Bool
accepts none attachment message = true
accepts (some matches) attachment message = matches attachment message

abbrev pub member : Attachment → Message → Member
member attachment message = record {
  name = int message.id ∷ str "_" ∷ str attachment.filename ∷ [];
  mtime = message.created_at;
  url = attachment.url;
}

abbrev pub take_member : Attachment → Message → Walk → Walk
take_member attachment message w = record w {
  attachments_done = w.attachments_done + 1;
  bytes_streamed = w.bytes_streamed + get_or attachment.size 0;
  members = w.members ++ member attachment message ∷ [];
}

-- `except aiohttp.ClientError: continue`; `none` is the attachment that is skipped.
abbrev pub setup_error : Exn → Exec (Option ℕ)
setup_error client_error = pure none
setup_error e = raise e

abbrev pub open_response : String → Exec (Option ℕ)
open_response url = catch (do status ← await (http_get url); pure (some status)) setup_error

abbrev pub on_status : Attachment → Message → Walk → Option ℕ → Exec Walk
on_status attachment message w none = pure w
on_status attachment message w (some status) =
    if status == 200
    then pure (take_member attachment message w)
    else do await (http_release attachment.url); pure w

-- One round of the loop over the attachments.
unfoldable pub visit :
    Option (Attachment → Message → Bool) → Message → Attachment → Walk → Exec Walk
visit matches message attachment w =
    if accepts matches attachment message
    then (do status ← open_response attachment.url; on_status attachment message w status)
    else pure w

unfoldable pub walk_attachments :
    Option (Attachment → Message → Bool) → Message → List Attachment → Walk → Exec Walk
walk_attachments matches message [] w = pure w
walk_attachments matches message (a ∷ as') w = do
  w' ← visit matches message a w
  walk_attachments matches message as' w'

unfoldable pub walk_messages :
    Option (Attachment → Message → Bool)
    → Option Reporter
    → Bounds
    → List Message
    → Walk
    → Exec Walk
walk_messages matches on_progress bounds [] w = pure w
walk_messages matches on_progress bounds (m ∷ ms) w = do
  w' ← tick on_progress bounds m w
  w'' ← walk_attachments matches m m.attachments w'
  walk_messages matches on_progress bounds ms w''
