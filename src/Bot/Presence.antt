-- ===== src/Bot/Presence.antt =====
-- presence.py and `status_task` of bot.py. The state of the generator is its last pick. `while True`
-- of one pick has a bound here, the first argument of `pick`.
pub mod Picks
use discord_downloader_bot.Prelude.{
  ℕ, zero, suc, String, Bool, true, false, ◌&&◌, Option, none, some, List, [], ◌∷◌, length, ltb,
  text_eq, if◌then◌else◌,
}
use discord_downloader_bot.World.{
  Exn, value_error, out_of_fuel, Exec, await, pure, raise, ◌>>=◌, ◌>>◌, random_choice,
  change_presence,
}

-- `STATUSES`
abbrev pub all_statuses : List String
all_statuses =
    "Packaging memories… please hold." ∷ "I collect. I compress. I disappear."
    ∷ "Zipping… eventually." ∷ "Downloading the internet (locally)."
    ∷ "I only queue jobs. Someone else suffers." ∷ "Delegating responsibility since 2024."
    ∷ "Queued. Detached. Emotionless." ∷ "Uploading to The Cloud™."
    ∷ "Now stored somewhere expensive." ∷ "Converting memes into Cloud liabilities."
    ∷ "Paid for by unused enterprise credits." ∷ "If this fails, blame the Cloud™."
    ∷ "You post it, I take it." ∷ "This channel looked better as a zip file."
    ∷ "Archiving things you'll never open." ∷ "Because scrolling is for cowards."
    ∷ "Yes, even that image." ∷ "Working longer than Discord allows."
    ∷ "Still going. Don't worry. Or do." ∷ "Good things come to those who wait."
    ∷ "15 minutes wasn't enough." ∷ "Reducing many files into one." ∷ "I make files hug each other."
    ∷ "Compressing chaos." ∷ "One zip to hold them all." ∷ "If the cloud fails, I carry it myself."
    ∷ "Delivering by hand. Digitally." ∷ []

-- `choice == previous`
abbrev pub is_previous : String → Option String → Bool
is_previous choice none = false
is_previous choice (some s) = text_eq choice s

abbrev pub or_redraw : Exec String → List String → Option String → String → Exec String
or_redraw again statuses previous choice =
    if is_previous choice previous && ltb 1 (length statuses) then again else pure choice

-- From one `yield` of `cycle_random` to the next.
unfoldable pub pick : ℕ → List String → Option String → Exec String
pick zero statuses previous = raise out_of_fuel
pick (suc fuel) statuses previous = do
  choice ← await (random_choice statuses)
  or_redraw (pick fuel statuses previous) statuses previous choice

-- `next(picker)`
unfoldable pub next_status : ℕ → List String → Option String → Exec String
unfolding pick
next_status fuel [] previous = raise value_error
next_status fuel (s ∷ l) previous = pick fuel (s ∷ l) previous

-- A number of rounds of `status_task`; the result is what the bot showed.
unfoldable pub status_rounds : ℕ → ℕ → List String → Option String → Exec (List String)
unfolding next_status
status_rounds zero fuel statuses previous = pure []
status_rounds (suc n) fuel statuses previous = do
  status ← next_status fuel statuses previous
  await (change_presence status)
  rest ← status_rounds n fuel statuses (some status)
  pure (status ∷ rest)
