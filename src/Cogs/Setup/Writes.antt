-- ===== src/Cogs/Setup/Writes.antt =====
-- Which rows the setup commands write.
use discord_downloader_bot.Prelude.{
  ℕ, String, Bool, true, false, not, ◌&&◌, ◌||◌, ◌≡◌, refl, Option, none, some, is_none, is_some,
  text_eq, arith,
}
use discord_downloader_bot.Int.{ℤ}
use discord_downloader_bot.Data.{GuildSettings}
use discord_downloader_bot.World.{Call, Env, upsert_row, fetch_row}
use discord_downloader_bot.World.Trace.{
  Makes, Makes-if, Makes-bind, Makes-await, Makes-pure, Makes-upsert_row, Makes-context_send,
}
use discord_downloader_bot.Db.GuildSettings.{get, upsert}
use discord_downloader_bot.Cogs.Context.{Guild}
use discord_downloader_bot.Cogs.Setup.{
  valid_mode, new_settings, setup_set, setup_show, setup_clear, cleared, Verb, set, show, clear,
  usage, setup_group, body,
}

-- The checks of the table guild_settings in db/schema.sql.
abbrev pub row_checks : GuildSettings → Bool
row_checks s =
    valid_mode s.delivery_mode
    && (not (text_eq s.delivery_mode "channel") || is_some s.results_channel_id)

-- A write is one of a row that the table accepts.
abbrev pub writes_well : Call → Bool
writes_well (upsert_row s) = row_checks s
writes_well call = true

module _ (env : Env) where
  set-Makes :
      (g : Guild) (mode : String) (channel : Option ℕ) (hours : ℤ)
      → Makes writes_well env (setup_set g mode channel hours)
  unfolding setup_set upsert
  set-Makes g mode channel hours =
      Makes-if (not (valid_mode mode)) _ _ (λ _. Makes-context_send _ _ refl)
        λ valid.
          Makes-if (text_eq mode "channel" && is_none channel) _ _
            (λ _. Makes-context_send _ _ refl)
            λ given.
              Makes-bind _ _
                (Makes-upsert_row (new_settings g mode channel hours)
                  (accepted channel valid given))
                λ _. Makes-context_send _ _ refl
    where
      accepted :
          (o : Option ℕ)
          → not (valid_mode mode) ≡ false
          → (text_eq mode "channel" && is_none o) ≡ false
          → writes_well (upsert_row (new_settings g mode o hours)) ≡ true
      accepted none v e = ground arith
      accepted (some id) v e = ground arith

  clear-Makes : (g : Guild) → Makes writes_well env (setup_clear g)
  unfolding setup_clear upsert get
  clear-Makes g =
      Makes-bind {A = GuildSettings} _ _
        (Makes-bind {A = Option GuildSettings} _ _ (Makes-await (fetch_row g.id) refl)
          (λ row. Makes-pure _))
        λ existing.
          Makes-bind _ _ (Makes-upsert_row (cleared existing) refl) λ _. Makes-context_send _ _ refl

  show-Makes : (g : Guild) → Makes writes_well env (setup_show g)
  unfolding setup_show get
  show-Makes g =
      Makes-bind {A = GuildSettings} _ _
        (Makes-bind {A = Option GuildSettings} _ _ (Makes-await (fetch_row g.id) refl)
          (λ row. Makes-pure _))
        λ s. Makes-context_send _ _ refl

  -- Whatever Postgres answers and whatever the arguments are, each subcommand of setup, and the bare group,
  -- writes only rows that satisfy the checks of the table: a known delivery mode, and a results channel where
  -- the mode is `channel`.
  pub writes_are_valid : (v : Verb) (g : Guild) → Makes writes_well env (body v g)
  unfolding setup_group
  writes_are_valid (set mode channel hours) g = set-Makes g mode channel hours
  writes_are_valid show g = show-Makes g
  writes_are_valid clear g = clear-Makes g
  writes_are_valid (usage prefix) g = Makes-context_send _ _ refl
