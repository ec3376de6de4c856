-- ===== src/Embeds.antt =====
-- embeds.py: the messages that the bot sends. The timestamp and the author block are the same on
-- every embed and are left out.
pub mod Size
pub mod Same
use discord_downloader_bot.Prelude.{
  ℕ, ◌*◌, ◌/◌, String, Bool, true, false, Option, none, some, List, [], ◌∷◌, ◌++◌, text_eq, get_or,
  ◌==◌, if◌then◌else◌,
}
use discord_downloader_bot.Data.{
  Piece, str, int, Colour, green, red, blurple, Field, Embed, Fraction,
}
use Size.{humanise_bytes}

abbrev pub base : String → Option (List Piece) → Colour → Embed
base title description colour = record {
  title = title;
  description = description;
  colour = colour;
  fields = [];
  footer = none;
}

unfoldable pub success : String → Option (List Piece) → Embed
success title description = base title description green

unfoldable pub error : String → Option (List Piece) → Embed
error title description = base title description red

unfoldable pub info : String → Option (List Piece) → Embed
info title description = base title description blurple

unfoldable pub media_download : String → ℕ → Embed
unfolding success
media_download signed_url requester_id =
    record (success "Channel Media Download"
      (some (str "[Download channel media](" ∷ str signed_url ∷ str ")" ∷ []))) {
        footer = some (str "Requested by <@" ∷ int requester_id ∷ str "> | Job ()" ∷ []);
      }

unfoldable pub no_attachments : ℕ → Embed
unfolding error
no_attachments requester_id = record (error "No media found" (some (str no_media ∷ []))) {
  footer = some (str "Requested by <@" ∷ int requester_id ∷ str ">" ∷ []);
}
  where
    no_media : String
    no_media =
        "This channel has no attachments to archive — either it's empty, the messages contain no files, or the server's allowed media-type filter excluded everything."

unfoldable pub job_enqueued : String → Bool → Embed
unfolding info
job_enqueued task_id dm_me = record (info "Download queued" (some (str description ∷ []))) {
  footer = some (str "Job " ∷ str task_id ∷ []);
}
  where
    description : String
    description =
        if dm_me
        then "Your download has been queued. The result will be sent to you via DM once it's ready."
        else "Your download has been queued. You'll be notified once it's ready."

-- `_JOB_PHASE_LABELS.get(phase, "Unknown phase")`
unfoldable pub phase_label : String → String
phase_label phase =
    if text_eq phase "picked_up"
    then "Worker picked it up — starting"
    else if text_eq phase "queued"
    then "Queued (waiting for a worker)"
    else if text_eq phase "stream"
    then "Streaming attachments"
    else if text_eq phase "deliver"
    then "Uploading & delivering"
    else if text_eq phase "done"
    then "Delivered"
    else if text_eq phase "cancelled"
    then "Cancelled"
    else "Unknown phase"

-- An age in microseconds; it is negative where the clock of the worker is ahead.
pub data Age : Type 0 where
  behind ahead : ℕ → Age

-- `int(age)` in seconds truncates towards zero.
unfoldable pub whole_seconds : Age → List Piece
whole_seconds (behind us) = int (us / 1000000) ∷ []
whole_seconds (ahead us) =
    if us / 1000000 == 0 then int 0 ∷ [] else str "-" ∷ int (us / 1000000) ∷ []

-- The optional arguments of `job_status`.
pub record Progress : Type 0 where
  pub attachments_done : Option ℕ
  pub bytes_streamed : Option ℕ
  pub history_fraction : Option Fraction
  pub heartbeat_age : Option Age

abbrev field : String → List Piece → Bool → Field
field name value inline = record { name = name; value = value; inline = inline }

abbrev heartbeat_field : Option Age → List Field
heartbeat_field none = []
heartbeat_field (some age) = field "Heartbeat" (whole_seconds age ++ str "s ago" ∷ []) true ∷ []

abbrev position_field : Option Fraction → List Field
position_field none = []
position_field (some f) =
    field "Position" (str "~" ∷ int (f.num * 100 / f.den) ∷ str "% through channel history" ∷ [])
      true
    ∷ []

abbrev tally_field : Option ℕ → Option ℕ → List Field
tally_field none bytes = []
tally_field (some n) bytes =
    field "Tally" (int n ∷ str " attachments, " ∷ humanise_bytes (get_or bytes 0)) true ∷ []

unfoldable pub job_status : String → String → ℕ → Progress → Embed
unfolding success error info phase_label humanise_bytes whole_seconds
job_status task_id phase requester_id p =
    record (if text_eq phase "cancelled"
      then error "Job cancelled" none
      else if text_eq phase "done"
      then success "Job delivered" none
      else info "Job status" none) {
        fields =
            field "Phase" (str (phase_label phase) ∷ []) false
            ∷ (heartbeat_field p.heartbeat_age
                ++ (position_field p.history_fraction
                    ++ tally_field p.attachments_done p.bytes_streamed));
        footer =
            some (
              str "Job "
              ∷ str task_id
              ∷ str " • requested by <@"
              ∷ int requester_id
              ∷ str ">"
              ∷ []);
      }

unfoldable pub job_cancelled : String → ℕ → Embed
unfolding error
job_cancelled task_id requester_id =
    record (error "Cancellation requested"
      (some (str "The worker will stop and clean up any partial archive." ∷ []))) {
        footer =
            some (
              str "Job "
              ∷ str task_id
              ∷ str " • requested by <@"
              ∷ int requester_id
              ∷ str ">"
              ∷ []);
      }

unfoldable pub job_not_found : Option String → Embed
unfolding error
job_not_found none =
    error "No active jobs" (some (str "You don't have any active downloads to look at." ∷ []))
job_not_found (some task_id) = error "Job not found" (
    some (str "That job doesn't exist, has already finished, or you don't have access to it." ∷ []))
