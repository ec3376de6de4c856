-- ===== src/Tests/Commands.antt =====
-- Examples of the commands and of the filters.
use discord_downloader_bot.Download.RateLimit.Bucket.{spend, allowed}
use discord_downloader_bot.Download.RateLimit.Client.{acquire, acquire_round, once}
use discord_downloader_bot.Cogs.Download.Tokens.{enqueues_nothing, nothing_without_token}
use discord_downloader_bot.Prelude.{
  Option, ap, arith, true, false, ◌≡◌, refl, none, some, [], ◌∷◌, ◌≢◌,
}
use discord_downloader_bot.Int.{pos}
use discord_downloader_bot.Unicode.{is_space}
use discord_downloader_bot.Datetime.{Datetime, from_timestamp}
use discord_downloader_bot.Data.{JobMeta, GuildSettings}
use discord_downloader_bot.Db.GuildSettings.{default_settings}
use discord_downloader_bot.World.{
  Result, ok, Env, History, after, redis_get_meta, redis_latest, ◌>>=◌, redis_hmget,
}
use discord_downloader_bot.World.Trace.{Makes}
use discord_downloader_bot.Keys.{meta_key}
use discord_downloader_bot.Cogs.Context.{Guild, Context, Bot}
use discord_downloader_bot.Cogs.Setup.{set, body}
use discord_downloader_bot.Cogs.Setup.Writes.{writes_well, writes_are_valid}
use discord_downloader_bot.Cogs.Download.Command.{Options, conflicting, download, limits}
use discord_downloader_bot.Cogs.Download.Refusals.{is_reply, refusal_only_replies}
use discord_downloader_bot.Cogs.Jobs.Access.{resolve_job, target, can_act_on}
use discord_downloader_bot.Cogs.Jobs.Rights.{
  MayAct, requester, bot_owner, guild_owner, found_job_is_authorised,
}
use discord_downloader_bot.Cogs.Jobs.Status.{status}
use discord_downloader_bot.Cogs.Jobs.Cancel.{cancel, cancel_job}
use discord_downloader_bot.Cogs.Jobs.Privacy.{refuses, refused_learns_nothing}
use discord_downloader_bot.Cogs.Jobs.Effects.{reads_or_cancels, free, no_refund_once_begun}
use discord_downloader_bot.Download.Jobs.{get_job_meta, latest_job_for_user}
use discord_downloader_bot.Download.Filters.Mime.{content_type}
use discord_downloader_bot.Download.Filters.Resolve.{ResolvedFilters, build_matcher, resolve}
use discord_downloader_bot.Download.Filters.Policy.{allows, filters_only_narrow}
use discord_downloader_bot.Download.Filters.Period.{resolve_named_period}
use discord_downloader_bot.Download.Filters.Windows.{IsWindow}
use discord_downloader_bot.Download.Filters.Spans.{last_month, Spans, resolve_named_period-Spans}
use discord_downloader_bot.Tests.Values.{
  all_well, ascii, some_settings, picture, some_message, noon,
}

abbrev pub some_guild : Guild
some_guild = record { id = 5; owner_id = 9; can_read_history = true }

abbrev pub by_owner : Context
by_owner = record { author_id = 9; channel_id = 7; guild = some some_guild }

abbrev pub some_bot : Bot
some_bot = record { settings = some_settings; unicode = ascii; tries = 3 }

writes_are_valid_example : Makes writes_well all_well (
    body
      (set "channel" (some 7) (pos 48))
      (record { id = 5; owner_id = 9; can_read_history = true }))
writes_are_valid_example =
    writes_are_valid all_well (set "channel" (some 7) (pos 48))
      (record { id = 5; owner_id = 9; can_read_history = true })

-- `during` beside `before`.
abbrev two_windows : Options
two_windows = record {
  dm_me = false;
  media_type = none;
  from_user = none;
  before = some "7d";
  after = none;
  during = some "today";
}

refusal_only_replies_example : Makes is_reply all_well (download some_bot by_owner two_windows)
unfolding conflicting
refusal_only_replies_example = refusal_only_replies all_well some_bot by_owner two_windows refl

abbrev pub some_job : JobMeta
some_job = record {
  owner_user_id = 9;
  guild_id = none;
  channel_id = 7;
  enqueued_at = noon;
  enqueue_consumed_token = false;
}

no_refund_once_begun_example : Makes reads_or_cancels all_well (cancel_job some_bot "t1" some_job)
no_refund_once_begun_example = no_refund_once_begun all_well some_bot "t1" some_job (free refl)

-- Redis holds the record of the job, and its index.
abbrev one_job : Env
one_job h (redis_get_meta _) = ok (some some_job)
one_job h (redis_latest _) = ok (some "t1")
one_job h call = all_well h call

found_job_is_authorised_example :
    ((k : History) × (one_job k (redis_get_meta (meta_key "t1")) ≡ ok (some some_job)))
    × MayAct by_owner some_job one_job
unfolding resolve_job target can_act_on get_job_meta latest_job_for_user ◌>>=◌
found_job_is_authorised_example =
    found_job_is_authorised by_owner one_job none "t1" some_job []
      (after (resolve_job by_owner none one_job [])) refl

-- A guild that allows one type.
abbrev only_png : GuildSettings
only_png = record (default_settings 5) { allowed_media_types = some ("image/png" ∷ []) }

abbrev only_png_filters : ResolvedFilters
only_png_filters = record {
  matches = build_matcher ascii none none only_png.allowed_media_types;
  before = none;
  after = none;
}

filters_only_narrow_example : allows ascii only_png picture ≡ true
unfolding resolve build_matcher content_type is_space
filters_only_narrow_example =
    filters_only_narrow ascii none only_png (from_timestamp noon) only_png_filters picture
      some_message refl refl

-- A guild without tokens.
abbrev exhausted : Env
exhausted h (redis_hmget _) = ok (some (record { tokens = 0; last_refill = noon }))
exhausted h call = all_well h call

abbrev by_member : Context
by_member = record { author_id = 10; channel_id = 7; guild = some some_guild }

never_allowed :
    (h : History)
    → (acquire some_bot.tries (limits some_bot.settings) some_guild.id exhausted h).0 ≢ ok allowed
unfolding acquire acquire_round once spend ◌>>=◌
never_allowed h e = cc

abbrev pub plain_options : Options
plain_options = record {
  dm_me = false;
  media_type = none;
  from_user = none;
  before = none;
  after = none;
  during = none;
}

nothing_without_token_example :
    Makes enqueues_nothing exhausted (download some_bot by_member plain_options)
nothing_without_token_example =
    nothing_without_token exhausted some_bot by_member some_guild plain_options refl refl
      never_allowed

-- The month before that of 14 November 2023.
abbrev october : Datetime
october = record { year = 2023; month = 10; day = 1; micros = 0 }

abbrev november : Datetime
november = record { year = 2023; month = 11; day = 1; micros = 0 }

resolve_named_period-Spans_example :
    IsWindow (from_timestamp noon) october november
    × Spans last_month (from_timestamp noon) october november
unfolding resolve_named_period from_timestamp
resolve_named_period-Spans_example =
    resolve_named_period-Spans (from_timestamp noon) (omega arith) last_month october november
      (omega arith) refl

-- A member who did not ask for the one job that Redis holds.
member_may_not : (meta : JobMeta) → some_job ≡ meta → ¬ MayAct by_member meta one_job
member_may_not meta e (requester q) = ground (arith, ap (λ m. m.owner_user_id) e)
member_may_not meta e (bot_owner h q) = cc
member_may_not meta e (guild_owner g p q r) =
    let same : some_job.guild_id ≡ meta.guild_id = ap (λ m. m.guild_id) e in cc

refused_learns_nothing_example :
    Makes (refuses none) one_job (status by_member none)
    × Makes (refuses none) one_job (cancel some_bot by_member none)
refused_learns_nothing_example =
    refused_learns_nothing one_job by_member none (λ t meta k e. member_may_not meta (ok_some e))
      some_bot
  where
    ok_some :
        {a b : JobMeta} → ◌≡◌ {A = Result (Option JobMeta)} (ok (some a)) (ok (some b)) → a ≡ b
    ok_some e = cc
