-- ===== src/Bot/Errors.antt =====
-- `on_command_error` of bot.py. Only the reply is modelled: the other effects of the handler are lines
-- of the log. The seconds of a cooldown are a fraction; `divmod` of a float by 60 is exact.
pub mod Cooldown
use discord_downloader_bot.Prelude.{
  ℕ, ◌*◌, ◌/◌, ◌%◌, String, true, false, some, List, [], ◌∷◌, ◌++◌, ltb, if◌then◌else◌,
}
use discord_downloader_bot.Rounding.{round_half_even}
use discord_downloader_bot.Data.{Piece, str, int, capitalized, Fraction}
use discord_downloader_bot.World.{Exn, Exec, await, pure, context_send}
use discord_downloader_bot.Embeds

-- The errors of discord.py that the handler tells apart, with what it reads of each, and the rest.
pub data CommandError : Type 0 where
  command_on_cooldown : Fraction → CommandError
  not_owner max_concurrency_reached command_not_found : CommandError
  missing_permissions bot_missing_permissions : List String → CommandError
  -- `str(cmd_error)`
  missing_required_argument bad_argument : String → CommandError
  unexpected : Exn → CommandError

-- Hours, minutes and seconds as they are rounded.
pub record Clock : Type 0 where
  pub hours : ℕ
  pub minutes : ℕ
  pub seconds : ℕ

unfoldable pub cooldown_clock : Fraction → Clock
unfolding round_half_even
cooldown_clock retry_after =
    let minutes = retry_after.num / (60 * retry_after.den) in
    record {
      hours = minutes / 60 % 24;
      minutes = minutes % 60;
      seconds = round_half_even (retry_after.num % (60 * retry_after.den)) retry_after.den;
    }

abbrev pub part : ℕ → String → List (List Piece)
part n unit = if ltb 0 n then (int n ∷ str unit ∷ []) ∷ [] else []

unfoldable pub cooldown_parts : Fraction → List (List Piece)
unfolding cooldown_clock
cooldown_parts retry_after =
    let c = cooldown_clock retry_after in
    part c.hours " hours" ++ (part c.minutes " minutes" ++ part c.seconds " seconds")

-- `", ".join(…)`
unfoldable pub join : List (List Piece) → List Piece
join [] = []
join (p ∷ []) = p
join (p ∷ q ∷ ps) = p ++ (str ", " ∷ join (q ∷ ps))

abbrev pub texts : List String → List (List Piece)
texts [] = []
texts (s ∷ l) = (str s ∷ []) ∷ texts l

abbrev pub reply : String → List Piece → Exec (Unit {0})
reply title description = await (context_send (Embeds.error title (some description)) false)

unfoldable pub on_command_error : CommandError → Exec (Unit {0})
unfolding cooldown_parts join
on_command_error (command_on_cooldown retry_after) = reply "Error" (
    str "**Please slow down** — you can use this command again in "
    ∷ (join (cooldown_parts retry_after) ++ str "." ∷ []))
on_command_error not_owner = reply "Error" (str "You are not the owner of the bot!" ∷ [])
on_command_error (missing_permissions l) = reply "Error" (
    str "You are missing the permission(s) `"
    ∷ (join (texts l) ++ str "` to execute this command!" ∷ []))
on_command_error (bot_missing_permissions l) = reply "Error" (
    str "I am missing the permission(s) `"
    ∷ (join (texts l) ++ str "` to fully perform this command!" ∷ []))
on_command_error (missing_required_argument text) = reply "Missing argument" (capitalized text ∷ [])
on_command_error (bad_argument text) = reply "Invalid argument" (capitalized text ∷ [])
on_command_error max_concurrency_reached = reply "Error" (
    str
      "This command is already running in this channel. Please wait for it to finish before running it again."
    ∷ [])
on_command_error command_not_found = pure tt
on_command_error (unexpected e) = reply "Unexpected error" (
    str
      "An unexpected error occurred while running this command. Please try again later, or contact an administrator if this keeps happening."
    ∷ [])
