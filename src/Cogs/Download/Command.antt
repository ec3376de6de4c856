-- ===== src/Cogs/Download/Command.antt =====
-- `_build_filters` and `Download.download` of cogs/download.py.
use discord_downloader_bot.Prelude.{
  ℕ, ◌+◌, String, Bool, true, false, not, ◌&&◌, ◌||◌, Option, none, some, List, [], ◌∷◌, ◌==◌,
  is_none, is_some, if◌then◌else◌,
}
use discord_downloader_bot.Int.{times}
use discord_downloader_bot.Rounding.{round_half_even}
use discord_downloader_bot.Data.{
  Piece, str, relative_time, DownloadFilters, GuildSettings, JobMeta, TaskArgs,
}
use discord_downloader_bot.World.{
  Exn, filter_parse_error, is_exception, Result, ok, raised, Exec, await, pure, raise, catch, ◌>>=◌,
  ◌>>◌, defer, context_send, kiq, datetime_now,
}
use discord_downloader_bot.Config.{Settings}
use discord_downloader_bot.Embeds
use discord_downloader_bot.Unicode.{Unicode}
use discord_downloader_bot.Db.GuildSettings.{default_settings, get}
use discord_downloader_bot.Download.Filters.Duration.{parse_duration}
use discord_downloader_bot.Download.Jobs.{record_job}
use discord_downloader_bot.Download.RateLimit.Bucket.{Limits, Wait, Verdict, allowed, retry_after}
use discord_downloader_bot.Download.RateLimit.Client.{acquire}
use discord_downloader_bot.Cogs.Context.{Guild, Context, Bot, guild_id}

-- The options of the command; `from_user` is the id of the user.
pub record Options : Type 0 where
  pub dm_me : Bool
  pub media_type : Option String
  pub from_user : Option ℕ
  pub before : Option String
  pub after : Option String
  pub during : Option String

-- `_build_filters`: `None` where every input is unset.
unfoldable pub build_filters : Options → Option DownloadFilters
build_filters o =
    if is_none o.media_type
      && (is_none o.from_user && (is_none o.before && (is_none o.after && is_none o.during)))
    then none
    else some (record {
      category = o.media_type;
      from_user_id = o.from_user;
      before = o.before;
      after = o.after;
      during = o.during;
    })

abbrev pub reply_error : String → List Piece → Bool → Exec (Unit {0})
reply_error title description ephemeral =
    await (context_send (Embeds.error title (some description)) ephemeral)

abbrev pub parse_if_given : Unicode → Option String → Result (Unit {0})
parse_if_given u none = ok tt
parse_if_given u (some value) = elim (parse_duration u value) [ ok _ ↦ ok tt | raised e ↦ raised e ]

-- `during` excludes `before` and `after`.
unfoldable pub conflicting : Options → Bool
conflicting o = is_some o.during && (is_some o.before || is_some o.after)

abbrev pub limits : Settings → Limits
limits s = record {
  capacity = s.guild_rate_limit_burst;
  refill_per_hour = s.guild_rate_limit_per_hour;
}

-- Who is let through: `none` was told to wait, `some consumed` goes on.
abbrev pub bypasses : Context → Bool
bypasses c = elim c.guild [ none ↦ true | some g ↦ c.author_id == g.owner_id ]

-- `timedelta(seconds=retry_after)` is rounded to the nearest microsecond, a tie to the even one.
unfoldable pub rounded : Wait → ℕ
unfolding round_half_even
rounded w = round_half_even w.num w.den

abbrev pub tell_to_wait : Verdict → Exec (Option Bool)
tell_to_wait allowed = pure (some true)
tell_to_wait (retry_after w) = do
  now ← await datetime_now
  reply_error "Rate limit reached"
      (str "This server has used its `/download` allowance. Try again "
        ∷ relative_time (now + rounded w)
        ∷ str "."
        ∷ [])
      true
  pure none

abbrev pub acquire_for : Bot → Context → Option Guild → Exec (Option Bool)
acquire_for bot c none = pure (some false)
acquire_for bot c (some g) =
    if c.author_id == g.owner_id
    then pure (some false)
    else do verdict ← acquire bot.tries (limits bot.settings) g.id; tell_to_wait verdict

-- The rate limit: `some consumed_token`, or `none` after the reply.
unfoldable pub rate_limit : Bot → Context → Exec (Option Bool)
rate_limit bot c = acquire_for bot c c.guild

unfoldable pub task_args : Context → Options → TaskArgs
unfolding build_filters
task_args c o = record {
  channel_id = c.channel_id;
  user_id = c.author_id;
  guild_id = guild_id c;
  dm_me = o.dm_me;
  filters = build_filters o;
}

-- `except Exception` around `kiq`; `none` after the reply.
abbrev pub unavailable : Bool → Exn → Exec (Option String)
unavailable dm_me e =
    if is_exception e
    then (do
      reply_error "Service unavailable"
          (str "The download queue is not currently available. Please try again in a moment." ∷ [])
          dm_me
      pure none)
    else raise e

unfoldable pub enqueue : Context → Options → Exec (Option String)
enqueue c o =
    catch (do task_id ← await (kiq (task_args c o)); pure (some task_id)) (unavailable o.dm_me)

abbrev pub guild_settings_for : Option Guild → Exec GuildSettings
guild_settings_for none = pure (default_settings 0)
guild_settings_for (some g) = get g.id

-- `except Exception`
abbrev pub dropped : Exn → Exec (Unit {0})
dropped e = if is_exception e then pure tt else raise e

abbrev pub job_meta : Context → Bool → ℕ → JobMeta
job_meta c consumed_token now = record {
  owner_user_id = c.author_id;
  guild_id = guild_id c;
  channel_id = c.channel_id;
  enqueued_at = now;
  enqueue_consumed_token = consumed_token;
}

-- The record in the index, and the acknowledgement.
unfoldable pub acknowledge : Context → Options → Bool → String → Exec (Unit {0})
acknowledge c o consumed_token task_id = do
  settings ← guild_settings_for c.guild
  now ← await datetime_now
  catch (record_job task_id (job_meta c consumed_token now) (times settings.retention_hours 3600))
      dropped
  await (context_send (Embeds.job_enqueued task_id o.dm_me) o.dm_me)

abbrev pub on_enqueued : Context → Options → Bool → Option String → Exec (Unit {0})
on_enqueued c o consumed_token none = pure tt
on_enqueued c o consumed_token (some task_id) = acknowledge c o consumed_token task_id

abbrev pub on_admitted : Context → Options → Option Bool → Exec (Unit {0})
on_admitted c o none = pure tt
on_admitted c o (some consumed_token) = do
  task_id ← enqueue c o
  on_enqueued c o consumed_token task_id

-- From the rate limit on.
unfoldable pub submit : Bot → Context → Options → Exec (Unit {0})
submit bot c o = do admitted ← rate_limit bot c; on_admitted c o admitted

-- `except FilterParseError`, and any other exception of `parse_duration` goes out.
abbrev pub on_parsed : Bot → Context → Options → Result (Unit {0}) → Exec (Unit {0})
on_parsed bot c o (ok _) = submit bot c o
on_parsed bot c o (raised (filter_parse_error message)) =
    reply_error "Invalid filter" message o.dm_me
on_parsed bot c o (raised e) = raise e

abbrev pub check_durations : Unicode → Options → Result (Unit {0})
check_durations u o = elim (parse_if_given u o.before) [
  | ok _ ↦ parse_if_given u o.after
  | raised e ↦ raised e
]

abbrev pub lacks_permission : Context → Bool
lacks_permission c = elim c.guild [ none ↦ false | some g ↦ not g.can_read_history ]

unfoldable pub download : Bot → Context → Options → Exec (Unit {0})
download bot c o = do
  await (defer o.dm_me)
  if lacks_permission c
      then reply_error "Missing permission"
          (str "I need **Read Message History** in this channel." ∷ []) o.dm_me
      else if conflicting o
      then reply_error "Conflicting filters"
          (str
              "`during` can't be combined with `before` or `after` — pick one way to express the time window."
            ∷ [])
          o.dm_me
      else on_parsed bot c o (check_durations bot.unicode o)
